-- ===== src/Handshake/Steps.antt =====
-- The steps of the exchange between two honest devices, one by one.
use go_send.Base.{
  is_empty-length, ℕ, ◌/◌, ◌≡◌, refl, [], none, some, Bytes, Text, text_eq, text_eq_refl, length,
  arith,
}
use go_send.Base.Int.{pos}
use go_send.Crypto.{Primitives, IsBase64, IsX25519}
use go_send.Crypto.Session.{derive_session_key}
use go_send.Protocol.{
  type_handshake_challenge, type_handshake, type_handshake_response, HandshakeChallenge,
  HandshakeResponse, decode_message_type,
}
use go_send.Handshake.Options.{
  HandshakeOptions, validate_identity, with_defaults, new_peer_connection,
}
use go_send.Handshake.Keys.{evaluate_peer_key, existing_key}
use go_send.Handshake.Sign.{
  HandshakeWire, unsigned_handshake, build_handshake_response, verify_handshake_response,
}
use go_send.Handshake.Dial.{answer_challenge, finish_dial}
use go_send.Handshake.Serve.{established, serve}
use go_send.Handshake.Honest.{IsHandshakeWire, IsIdentity, built, build-built, verify-built}

module _ (p : Primitives) (w : HandshakeWire) (base64 : IsBase64 p) (x25519 : IsX25519 p)
    (wire : IsHandshakeWire w) where
  unfoldable pub challenge_of : Bytes → Bytes
  challenge_of nonce =
      wire.challenge.payload
        (record { message_type = type_handshake_challenge; nonce = p.b64_encode nonce })

  -- The handshake payload of an honest dialer.
  pub handshake_of : HandshakeOptions → ℕ → Bytes → Bytes → Bytes
  handshake_of o now private_key nonce = wire.handshake.payload (
      built p w base64 wire (pos (now / 1_000_000)) o.identity (p.x25519_public private_key)
        (p.b64_encode nonce) type_handshake)

  pub response_message : HandshakeOptions → ℕ → Bytes → HandshakeResponse
  response_message o now private_key =
      let m =
        built p w base64 wire (pos (now / 1_000_000)) o.identity (p.x25519_public private_key) []
          type_handshake_response in
      record {
        message_type = m.message_type;
        device_id = m.device_id;
        device_name = m.device_name;
        ed25519_public_key = m.ed25519_public_key;
        x25519_public_key = m.x25519_public_key;
        version = m.version;
        timestamp = m.timestamp;
        signature = m.signature;
      }

  pub answer_challenge-eq :
      (o : HandshakeOptions) (now : ℕ) (private_key nonce : Bytes)
      → IsIdentity p o.identity
      → length nonce ≡ 32
      → answer_challenge p w o now (some private_key) (challenge_of nonce)
        ≡ some (handshake_of o now private_key nonce, p.b64_encode nonce)
  unfolding answer_challenge validate_identity decode_message_type challenge_of handshake_of
  answer_challenge-eq o now private_key nonce h l =
      let challenge : HandshakeChallenge = record {
        message_type = type_handshake_challenge;
        nonce = p.b64_encode nonce;
      } in
      let public = p.x25519_public private_key in
      let at = pos (now / 1_000_000) in
      let m = built p w base64 wire at o.identity public (p.b64_encode nonce) type_handshake in
      ground (
        arith,
        h.has_id,
        h.has_name,
        is_empty-length o.identity.ed25519_private_key 63 h.private_length,
        is_empty-length o.identity.ed25519_public_key 31 h.public_length,
        wire.challenge.typed challenge,
        wire.challenge.unmarshals challenge,
        text_eq_refl type_handshake_challenge,
        base64.decode_encode nonce,
        l,
        build-built p w base64 wire at o.identity public (p.b64_encode nonce) type_handshake h,
        wire.handshake.marshals m,
      )

  -- The response is built.
  build-response :
      (o : HandshakeOptions) (now : ℕ) (private_key : Bytes)
      → IsIdentity p o.identity
      → build_handshake_response p w
          (pos (now / 1_000_000))
          o.identity
          (p.x25519_public private_key)
        ≡ some (response_message o now private_key)
  unfolding build_handshake_response response_message
  build-response o now private_key h =
      let at = pos (now / 1_000_000) in
      let public = p.x25519_public private_key in
      ground (arith, build-built p w base64 wire at o.identity public [] type_handshake_response h)

  pub serve-eq :
      (o peer : HandshakeOptions) (now at : ℕ) (private_key peer_private nonce key : Bytes)
      → IsIdentity p o.identity
      → IsIdentity p peer.identity
      → length nonce ≡ 32
      → evaluate_peer_key o peer.identity.device_id (p.b64_encode peer.identity.ed25519_public_key)
        ≡ none
      → derive_session_key p private_key
          (p.b64_encode (p.x25519_public peer_private))
          o.identity.device_id
          peer.identity.device_id
          (p.b64_encode nonce)
        ≡ some key
      → serve p w o now
          (p.b64_encode nonce)
          (some private_key)
          (handshake_of peer at peer_private nonce)
        ≡ established (wire.response.payload (response_message o now private_key)) (
            new_peer_connection now key o peer.identity.device_id
              (p.b64_encode peer.identity.ed25519_public_key))
  unfolding serve decode_message_type handshake_of built unsigned_handshake
  serve-eq o peer now at private_key peer_private nonce key h hp l known d =
      let public = p.x25519_public peer_private in
      let challenge = p.b64_encode nonce in
      let ms = pos (at / 1_000_000) in
      let m = built p w base64 wire ms peer.identity public challenge type_handshake in
      let filled = base64.encode_non_empty nonce (is_empty-length nonce 31 l) in
      let ok =
        verify-built p w base64 wire ms peer.identity public challenge type_handshake hp
          (ground (arith, filled)) in
      let response = response_message o now private_key in
      ground (
        arith,
        wire.handshake.typed m,
        wire.handshake.unmarshals m,
        text_eq_refl type_handshake,
        text_eq_refl challenge,
        ok,
        known,
        d,
        build-response o now private_key h,
        wire.response.marshals response,
      )

  verify-response :
      (o : HandshakeOptions) (now : ℕ) (private_key : Bytes)
      → IsIdentity p o.identity
      → verify_handshake_response p w (response_message o now private_key) ≡ none
  unfolding verify_handshake_response response_message built unsigned_handshake
  verify-response o now private_key h =
      verify-built p w base64 wire (pos (now / 1_000_000)) o.identity (p.x25519_public private_key)
        [] type_handshake_response h (unfold text_eq in refl)

  known_with_defaults :
      (o : HandshakeOptions) (device_id key : Text)
      → evaluate_peer_key (with_defaults o) device_id key ≡ evaluate_peer_key o device_id key
  unfolding evaluate_peer_key existing_key with_defaults
  known_with_defaults o device_id key = refl

  pub finish_dial-eq :
      (o peer : HandshakeOptions) (now at : ℕ) (private_key peer_private nonce key : Bytes)
      → IsIdentity p peer.identity
      → evaluate_peer_key o peer.identity.device_id (p.b64_encode peer.identity.ed25519_public_key)
        ≡ none
      → derive_session_key p private_key
          (p.b64_encode (p.x25519_public peer_private))
          o.identity.device_id
          peer.identity.device_id
          (p.b64_encode nonce)
        ≡ some key
      → finish_dial p w o now private_key
          (p.b64_encode nonce)
          (wire.response.payload (response_message peer at peer_private))
        ≡ some (
            new_peer_connection now key
              (with_defaults o)
              peer.identity.device_id
              (p.b64_encode peer.identity.ed25519_public_key))
  unfolding finish_dial decode_message_type response_message built unsigned_handshake with_defaults
  finish_dial-eq o peer now at private_key peer_private nonce key hp known d =
      let r = response_message peer at peer_private in
      let id = peer.identity.device_id in
      ground (
        arith,
        wire.response.typed r,
        wire.response.unmarshals r,
        text_eq_refl type_handshake_response,
        verify-response peer at peer_private hp,
        known_with_defaults o id (p.b64_encode peer.identity.ed25519_public_key),
        known,
        d,
      )
