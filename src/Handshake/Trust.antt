-- ===== src/Handshake/Trust.antt =====
-- What a handshake with an arbitrary peer establishes.
use go_send.Base.{
  ℕ, ◌≡◌, Option, none, some, Bytes, Text, text_eq_iff, Option-cases, inl, inr, arith,
}
use go_send.Crypto.{Primitives}
use go_send.Crypto.Session.{derive_session_key}
use go_send.Protocol.{HandshakeMessage, HandshakeResponse}
use go_send.Connection.State.{PeerConnection}
use go_send.Handshake.Options.{HandshakeOptions, with_defaults, new_peer_connection}
use go_send.Handshake.Keys.{evaluate_peer_key, existing_key}
use go_send.Handshake.Sign.{HandshakeWire, verify_handshake, verify_handshake_response}
use go_send.Handshake.Dial.{finish_dial}
use go_send.Handshake.Serve.{established, serve}

module _ (p : Primitives) (w : HandshakeWire) where
  -- The evidence for an inbound connection.
  pub record IsAuthentic (o : HandshakeOptions) (nonce : Text) (payload : Bytes)
      (pc : PeerConnection) : Type 0 where
    pub message : HandshakeMessage
    pub private_key : Bytes
    pub decoded : w.unmarshal_handshake payload ≡ some message
    pub challenge : message.challenge_nonce ≡ nonce
    pub signed : verify_handshake p w message ≡ none
    pub trusted : evaluate_peer_key o message.device_id message.ed25519_public_key ≡ none
    pub peer : pc.peer_device_id ≡ message.device_id
    pub key : pc.peer_public_key ≡ message.ed25519_public_key
    pub derived :
        derive_session_key p private_key message.x25519_public_key o.identity.device_id
          message.device_id nonce
        ≡ some pc.session_key

  -- Whatever payload arrives, the server establishes a connection only for a handshake that
  -- carries the server's own challenge, whose signature verifies under the key it presents, and
  -- whose key is accepted for its device. The connection has that device, that key, and the session
  -- key of that challenge.
  pub serve-IsAuthentic :
      (o : HandshakeOptions) (now : ℕ) (nonce : Text) (ephemeral : Option Bytes)
      (payload response : Bytes) (pc : PeerConnection)
      → serve p w o now nonce ephemeral payload ≡ established response pc
      → IsAuthentic o nonce payload pc
  unfolding serve new_peer_connection
  serve-IsAuthentic o now nonce ephemeral payload response pc h =
      elim (Option-cases (w.unmarshal_handshake payload)) [
        | inl e ↦ absurd (ground (arith, h, e))
        | inr (m, e) ↦ elim (Option-cases ephemeral) [
          | inl f ↦ absurd (ground (arith, h, e, f))
          | inr (a, f) ↦
              let same = text_eq_iff m.challenge_nonce nonce in
              record {
                message = m;
                private_key = a;
                decoded = e;
                challenge = ground (arith, h, e, f, same);
                signed = ground (arith, h, e, f);
                trusted = ground (arith, h, e, f);
                peer = ground (arith, h, e, f);
                key = ground (arith, h, e, f);
                derived = ground (arith, h, e, f, same);
              }
        ]
      ]

  -- The evidence for an outbound connection.
  pub record IsDialed (o : HandshakeOptions) (private_key : Bytes) (challenge : Text)
      (payload : Bytes) (pc : PeerConnection) : Type 0 where
    pub message : HandshakeResponse
    pub decoded : w.unmarshal_response payload ≡ some message
    pub signed : verify_handshake_response p w message ≡ none
    pub trusted : evaluate_peer_key o message.device_id message.ed25519_public_key ≡ none
    pub peer : pc.peer_device_id ≡ message.device_id
    pub key : pc.peer_public_key ≡ message.ed25519_public_key
    pub derived :
        derive_session_key p private_key message.x25519_public_key o.identity.device_id
          message.device_id challenge
        ≡ some pc.session_key

  -- Whatever payload answers, the dialer gets a connection only for a response whose signature
  -- verifies under the key it presents and whose key is accepted for its device. The connection has
  -- that device, that key, and a session key from the dialer's own ephemeral key and the challenge.
  pub finish_dial-IsDialed :
      (o : HandshakeOptions) (now : ℕ) (private_key : Bytes) (challenge : Text) (payload : Bytes)
      (pc : PeerConnection)
      → finish_dial p w o now private_key challenge payload ≡ some pc
      → IsDialed o private_key challenge payload pc
  unfolding finish_dial new_peer_connection with_defaults evaluate_peer_key existing_key
  finish_dial-IsDialed o now private_key challenge payload pc h =
      elim (Option-cases (w.unmarshal_response payload)) [
        | inl e ↦ absurd (ground (arith, h, e))
        | inr (m, e) ↦ record {
          message = m;
          decoded = e;
          signed = ground (arith, h, e);
          trusted = ground (arith, h, e);
          peer = ground (arith, h, e);
          key = ground (arith, h, e);
          derived = ground (arith, h, e);
        }
      ]

  -- A response is not bound to the challenge: a payload that one dial accepted is accepted again by
  -- a later dial of the device, with another ephemeral key and another challenge, whenever a
  -- session key can be derived for them.
  pub finish_dial_replayed :
      (o : HandshakeOptions) (now later : ℕ) (private_key fresh : Bytes) (challenge other : Text)
      (payload key : Bytes) (pc : PeerConnection) (m : HandshakeResponse)
      → finish_dial p w o now private_key challenge payload ≡ some pc
      → w.unmarshal_response payload ≡ some m
      → derive_session_key p fresh m.x25519_public_key o.identity.device_id m.device_id other
        ≡ some key
      → finish_dial p w o later fresh other payload
        ≡ some (new_peer_connection later key (with_defaults o) m.device_id m.ed25519_public_key)
  unfolding finish_dial with_defaults
  finish_dial_replayed o now later private_key fresh challenge other payload key pc m h e d =
      ground (arith, h, e, d)
