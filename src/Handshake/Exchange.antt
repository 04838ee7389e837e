-- ===== src/Handshake/Exchange.antt =====
-- The whole exchange between two devices.
use go_send.Base.{ℕ, ◌≡◌, refl, false, none, some, Bytes, is_empty, length}
use go_send.Crypto.{Primitives, IsBase64, IsX25519}
use go_send.Crypto.Agreement.{derive_session_key_agrees}
use go_send.Protocol.{type_handshake_challenge}
use go_send.Connection.State.{ready, PeerConnection}
use go_send.Handshake.Options.{HandshakeOptions, with_defaults, new_peer_connection}
use go_send.Handshake.Keys.{evaluate_peer_key}
use go_send.Handshake.Sign.{HandshakeWire}
use go_send.Handshake.Dial.{answer_challenge, finish_dial}
use go_send.Handshake.Serve.{established, challenge_payload, serve}
use go_send.Handshake.Honest.{IsHandshakeWire, IsIdentity}
use go_send.Handshake.Steps.{
  challenge_of, handshake_of, response_message, answer_challenge-eq, serve-eq, finish_dial-eq,
}

-- The two connections of an exchange: each names the other device and its key, and they share
-- the session key.
pub record IsAgreed (p : Primitives) (dialer server : HandshakeOptions)
    (here there : PeerConnection) : Type 0 where
  pub same_key : here.session_key ≡ there.session_key
  pub server_id : here.peer_device_id ≡ server.identity.device_id
  pub server_key : here.peer_public_key ≡ p.b64_encode server.identity.ed25519_public_key
  pub dialer_id : there.peer_device_id ≡ dialer.identity.device_id
  pub dialer_key : there.peer_public_key ≡ p.b64_encode dialer.identity.ed25519_public_key
  pub both_ready : (here.state ≡ ready) × (there.state ≡ ready)
  pub both_fresh : (here.last_seen_seq ≡ 0) × (there.last_seen_seq ≡ 0)

module _ (p : Primitives) (w : HandshakeWire) (base64 : IsBase64 p) (x25519 : IsX25519 p)
    (wire : IsHandshakeWire w) where
  -- Two devices with key pairs, each of which accepts the other's key, and whose ephemeral keys
  -- give a shared secret that is not empty, complete the handshake: for a 32-byte challenge the
  -- dialer answers it, the server accepts the answer and responds, and the dialer accepts the
  -- response. Both end with a ready connection that names the other device and its key, and with
  -- one session key.
  pub handshake_agrees :
      (dialer server : HandshakeOptions) (t1 t2 t3 : ℕ) (a b secret nonce : Bytes)
      → IsIdentity p dialer.identity
      → IsIdentity p server.identity
      → evaluate_peer_key server dialer.identity.device_id
          (p.b64_encode dialer.identity.ed25519_public_key)
        ≡ none
      → evaluate_peer_key dialer server.identity.device_id
          (p.b64_encode server.identity.ed25519_public_key)
        ≡ none
      → p.x25519_ecdh a (p.x25519_public b) ≡ some secret
      → is_empty secret ≡ false
      → length nonce ≡ 32
      → (challenge handshake response : Bytes) × (here there : PeerConnection) × (challenge_payload
            p w
            (p.b64_encode nonce)
          ≡ some challenge)
        × (answer_challenge p w dialer t1 (some a) challenge ≡ some (handshake, p.b64_encode nonce))
        × (serve p w server t2 (p.b64_encode nonce) (some b) handshake ≡ established response there)
        × (finish_dial p w dialer t3 a (p.b64_encode nonce) response ≡ some here)
        × IsAgreed p dialer server here there
  unfolding new_peer_connection with_defaults challenge_payload challenge_of
  handshake_agrees dialer server t1 t2 t3 a b secret nonce hd hs kd ks e s l =
      let (key, here, there) =
        derive_session_key_agrees p base64 x25519 a b secret nonce dialer.identity.device_id
          server.identity.device_id (p.b64_encode nonce) e s hd.named hs.named
          (base64.decode_encode nonce) l in
      (
        challenge_of p w base64 x25519 wire nonce,
        handshake_of p w base64 x25519 wire dialer t1 a nonce,
        wire.response.payload (response_message p w base64 x25519 wire server t2 b),
        new_peer_connection t3 key (with_defaults dialer) server.identity.device_id
            (p.b64_encode server.identity.ed25519_public_key),
        new_peer_connection t2 key server dialer.identity.device_id
            (p.b64_encode dialer.identity.ed25519_public_key),
        wire.challenge.marshals
            (record { message_type = type_handshake_challenge; nonce = p.b64_encode nonce }),
        answer_challenge-eq p w base64 x25519 wire dialer t1 a nonce hd l,
        serve-eq p w base64 x25519 wire server dialer t2 t1 b a nonce key hs hd l kd there,
        finish_dial-eq p w base64 x25519 wire dialer server t3 t2 a b nonce key hs ks here,
        record {
          same_key = refl;
          server_id = refl;
          server_key = refl;
          dialer_id = refl;
          dialer_key = refl;
          both_ready = (refl, refl);
          both_fresh = (refl, refl);
        },
      )
