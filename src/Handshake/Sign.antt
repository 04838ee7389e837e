-- ===== src/Handshake/Sign.antt =====
-- network/protocol.go: building, signing and verifying the messages of the handshake.
use go_send.Base.{
  Bool, false, not, ◌&&◌, [], Option, none, some, Bytes, Text, is_empty, text_eq, length, ◌==◌,
  if◌then◌else◌,
}
use go_send.Base.Int.{ℤ, pos, negsuc}
use go_send.Crypto.{Primitives, ed25519_private_key_size, ed25519_public_key_size, sign, verify}
use go_send.Protocol.{
  protocol_version, type_handshake, type_handshake_response, HandshakeChallenge, HandshakeMessage,
  HandshakeResponse,
}
use go_send.Handshake.Options.{LocalIdentity}

-- JSON of the handshake's messages; `envelope` reads the type of a payload.
pub record HandshakeWire : Type 0 where
  pub envelope : Bytes → Option Text
  pub marshal_challenge : HandshakeChallenge → Option Bytes
  pub unmarshal_challenge : Bytes → Option HandshakeChallenge
  pub marshal_handshake : HandshakeMessage → Option Bytes
  pub unmarshal_handshake : Bytes → Option HandshakeMessage
  pub marshal_response : HandshakeResponse → Option Bytes
  pub unmarshal_response : Bytes → Option HandshakeResponse

pub data VerifyError : Type 0 where
  unsupported_version missing_challenge bad_public_key bad_encoding invalid_signature : VerifyError

-- `v == ProtocolVersion`.
abbrev pub is_version : ℤ → Bool
is_version (pos n) = n == protocol_version
is_version (negsuc n) = false

-- The HandshakeMessage that a response is verified as.
abbrev pub as_handshake : HandshakeResponse → HandshakeMessage
as_handshake r = record {
  message_type = r.message_type;
  device_id = r.device_id;
  device_name = r.device_name;
  ed25519_public_key = r.ed25519_public_key;
  x25519_public_key = r.x25519_public_key;
  challenge_nonce = [];
  version = r.version;
  timestamp = r.timestamp;
  signature = r.signature;
}

module _ (p : Primitives) (w : HandshakeWire) where
  -- signHandshake.
  unfoldable pub sign_handshake : HandshakeMessage → Bytes → Option Bytes
  sign_handshake m private_key = elim (w.marshal_handshake (record m { signature = [] })) [
    | none ↦ none
    | some signable ↦ sign p private_key signable
  ]

  -- buildHandshakeMessage before it is signed; `now` is the clock in milliseconds.
  unfoldable pub unsigned_handshake : ℤ → LocalIdentity → Bytes → Text → Text → HandshakeMessage
  unsigned_handshake now identity ephemeral_public_key challenge_nonce message_type = record {
    message_type = message_type;
    device_id = identity.device_id;
    device_name = identity.device_name;
    ed25519_public_key = p.b64_encode identity.ed25519_public_key;
    x25519_public_key = p.b64_encode ephemeral_public_key;
    challenge_nonce = challenge_nonce;
    version = pos protocol_version;
    timestamp = now;
    signature = [];
  }

  -- buildHandshakeMessage.
  unfoldable pub build_handshake_message :
      ℤ → LocalIdentity → Bytes → Text → Text → Option HandshakeMessage
  build_handshake_message now identity ephemeral_public_key challenge_nonce message_type =
      if not (length identity.ed25519_private_key == ed25519_private_key_size)
      then none
      else if not (length identity.ed25519_public_key == ed25519_public_key_size)
      then none
      else (let m =
            unsigned_handshake now identity ephemeral_public_key challenge_nonce message_type in
          elim (sign_handshake m identity.ed25519_private_key) [
            | none ↦ none
            | some signature ↦ some (record m { signature = p.b64_encode signature })
          ])

  -- BuildHandshakeResponse.
  unfoldable pub build_handshake_response : ℤ → LocalIdentity → Bytes → Option HandshakeResponse
  build_handshake_response now identity ephemeral_public_key =
      elim (build_handshake_message now identity ephemeral_public_key [] type_handshake_response) [
        | none ↦ none
        | some m ↦ some (record {
          message_type = m.message_type;
          device_id = m.device_id;
          device_name = m.device_name;
          ed25519_public_key = m.ed25519_public_key;
          x25519_public_key = m.x25519_public_key;
          version = m.version;
          timestamp = m.timestamp;
          signature = m.signature;
        })
      ]

  -- verifyHandshake: none is success. The callers drop the public key that it returns.
  unfoldable pub verify_handshake : HandshakeMessage → Option VerifyError
  verify_handshake m =
      if not (is_version m.version)
      then some unsupported_version
      else if text_eq m.message_type type_handshake && is_empty m.challenge_nonce
      then some missing_challenge
      else elim (p.b64_decode m.ed25519_public_key) [
        | none ↦ some bad_public_key
        | some public_key ↦
            if not (length public_key == ed25519_public_key_size)
            then some bad_public_key
            else elim (p.b64_decode m.signature) [
              | none ↦ some bad_encoding
              | some signature ↦ elim (w.marshal_handshake (record m { signature = [] })) [
                | none ↦ some bad_encoding
                | some signable ↦
                    if not (verify p public_key signable signature)
                    then some invalid_signature
                    else none
              ]
            ]
      ]

  -- VerifyHandshakeResponse.
  unfoldable pub verify_handshake_response : HandshakeResponse → Option VerifyError
  unfolding verify_handshake
  verify_handshake_response r = verify_handshake (as_handshake r)
