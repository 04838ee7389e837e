-- ===== src/Handshake/Honest.antt =====
-- Handshake messages of an honest device: they are built, and they verify.
use go_send.Base.{
  ◌≡◌, true, false, ◌&&◌, Option, none, some, Bytes, Text, is_empty, text_eq, length, trim_space,
  arith,
}
use go_send.Base.Int.{ℤ}
use go_send.Crypto.{Primitives, IsBase64, sign, verify}
use go_send.Protocol.{type_handshake, HandshakeMessage}
use go_send.Handshake.Options.{LocalIdentity}
use go_send.Handshake.Sign.{
  HandshakeWire, sign_handshake, unsigned_handshake, build_handshake_message, verify_handshake,
}

-- JSON of one kind of message: every message has a payload, which is not empty, decodes to the
-- message and carries its type.
pub record IsEncoding {A : Type 0} (marshal : A → Option Bytes) (unmarshal : Bytes → Option A)
    (envelope : Bytes → Option Text) (type_of : A → Text) : Type 0 where
  pub payload : A → Bytes
  pub marshals : (a : A) → marshal a ≡ some (payload a)
  pub non_empty : (a : A) → is_empty (payload a) ≡ false
  pub unmarshals : (a : A) → unmarshal (payload a) ≡ some a
  pub typed : (a : A) → envelope (payload a) ≡ some (type_of a)

pub record IsHandshakeWire (w : HandshakeWire) : Type 0 where
  pub challenge :
      IsEncoding w.marshal_challenge w.unmarshal_challenge w.envelope (λ m. m.message_type)
  pub handshake :
      IsEncoding w.marshal_handshake w.unmarshal_handshake w.envelope (λ m. m.message_type)
  pub response : IsEncoding w.marshal_response w.unmarshal_response w.envelope (λ m. m.message_type)

-- A named device with an Ed25519 key pair: what it signs verifies.
pub record IsIdentity (p : Primitives) (i : LocalIdentity) : Type 0 where
  pub named : is_empty (trim_space i.device_id) ≡ false
  pub has_id : is_empty i.device_id ≡ false
  pub has_name : is_empty i.device_name ≡ false
  pub private_length : length i.ed25519_private_key ≡ 64
  pub public_length : length i.ed25519_public_key ≡ 32
  pub signature_length : (m : Bytes) → length (p.ed25519_sign i.ed25519_private_key m) ≡ 64
  pub verifies :
      (m : Bytes)
      → p.ed25519_verify i.ed25519_public_key m (p.ed25519_sign i.ed25519_private_key m) ≡ true

module _ (p : Primitives) (w : HandshakeWire) (base64 : IsBase64 p) (wire : IsHandshakeWire w) where
  -- The message that an honest device builds.
  unfoldable pub built : ℤ → LocalIdentity → Bytes → Text → Text → HandshakeMessage
  built now i ephemeral challenge t =
      let u = unsigned_handshake p w now i ephemeral challenge t in
      record u {
        signature = p.b64_encode (p.ed25519_sign i.ed25519_private_key (wire.handshake.payload u));
      }

  pub build-built :
      (now : ℤ) (i : LocalIdentity) (ephemeral : Bytes) (challenge t : Text)
      → IsIdentity p i
      → build_handshake_message p w now i ephemeral challenge t
        ≡ some (built now i ephemeral challenge t)
  unfolding built build_handshake_message sign_handshake sign unsigned_handshake
  build-built now i ephemeral challenge t h =
      let u = unsigned_handshake p w now i ephemeral challenge t in
      ground (
        arith,
        h.private_length,
        h.public_length,
        wire.handshake.marshals u,
        wire.handshake.non_empty u,
      )

  -- A message with a challenge, or with another type, verifies.
  pub verify-built :
      (now : ℤ) (i : LocalIdentity) (ephemeral : Bytes) (challenge t : Text)
      → IsIdentity p i
      → (text_eq t type_handshake && is_empty challenge) ≡ false
      → verify_handshake p w (built now i ephemeral challenge t) ≡ none
  unfolding built verify_handshake verify unsigned_handshake
  verify-built now i ephemeral challenge t h c =
      let u = unsigned_handshake p w now i ephemeral challenge t in
      let signable = wire.handshake.payload u in
      let signature = p.ed25519_sign i.ed25519_private_key signable in
      ground (
        arith,
        c,
        h.public_length,
        h.signature_length signable,
        h.verifies signable,
        base64.decode_encode i.ed25519_public_key,
        base64.decode_encode signature,
        wire.handshake.marshals u,
        wire.handshake.non_empty u,
      )
