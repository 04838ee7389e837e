-- ===== src/Handshake/Serve.antt =====
-- network/server.go: handleInboundConn, from the handshake payload to the response.
use go_send.Base.{ℕ, ◌/◌, not, Option, none, some, Bytes, Text, text_eq, if◌then◌else◌}
use go_send.Base.Int.{pos}
use go_send.Protocol.{type_handshake_challenge, type_handshake, decode_message_type}
use go_send.Crypto.{Primitives}
use go_send.Crypto.Session.{derive_session_key}
use go_send.Connection.State.{PeerConnection}
use go_send.Handshake.Options.{HandshakeOptions, new_peer_connection}
use go_send.Handshake.Keys.{KeyError, evaluate_peer_key}
use go_send.Handshake.Sign.{HandshakeWire, is_version, verify_handshake, build_handshake_response}

-- The code of the error message that the server answers with.
pub data ServerError : Type 0 where
  unknown_type version_mismatch invalid_handshake_challenge : ServerError
  key_refused : KeyError → ServerError

-- Closed without an answer, with an error message, or with a response and the connection.
pub data Served : Type 0 where
  closed : Served
  answered : ServerError → Served
  established : Bytes → PeerConnection → Served

module _ (p : Primitives) (w : HandshakeWire) where
  -- The challenge that opens the exchange; `nonce` is generateHandshakeChallengeNonce.
  unfoldable pub challenge_payload : Text → Option Bytes
  challenge_payload nonce =
      w.marshal_challenge (record { message_type = type_handshake_challenge; nonce = nonce })

  -- handleInboundConn after the challenge. `ephemeral` is the private key of
  -- GenerateEphemeralX25519KeyPair, or none for its error.
  unfoldable pub serve : HandshakeOptions → ℕ → Text → Option Bytes → Bytes → Served
  serve options now nonce ephemeral handshake_payload =
      elim (decode_message_type w.envelope handshake_payload) [
        | none ↦ closed
        | some t ↦
            if not (text_eq t type_handshake)
            then answered unknown_type
            else elim (w.unmarshal_handshake handshake_payload) [
              | none ↦ closed
              | some m ↦
                  if not (is_version m.version)
                  then answered version_mismatch
                  else if not (text_eq m.challenge_nonce nonce)
                  then answered invalid_handshake_challenge
                  else elim (verify_handshake p w m) [
                    | some _ ↦ closed
                    | none ↦ elim (evaluate_peer_key options m.device_id m.ed25519_public_key) [
                      | some e ↦ answered (key_refused e)
                      | none ↦ elim ephemeral [
                        | none ↦ closed
                        | some private_key ↦
                            elim (derive_session_key p private_key m.x25519_public_key
                              options.identity.device_id m.device_id m.challenge_nonce) [
                                | none ↦ closed
                                | some key ↦
                                    elim (build_handshake_response p w (pos (now / 1_000_000))
                                      options.identity (p.x25519_public private_key)) [
                                        | none ↦ closed
                                        | some response ↦ elim (w.marshal_response response) [
                                          | none ↦ closed
                                          | some payload ↦ established payload (
                                              new_peer_connection now key options m.device_id
                                                m.ed25519_public_key)
                                        ]
                                      ]
                              ]
                      ]
                    ]
                  ]
            ]
      ]
