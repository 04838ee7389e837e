-- ===== src/Rekey/Steps.antt =====
-- The steps of a rekey, one by one.
use go_send.Base.{
  is_empty-length, ℕ, ◌+◌, ◌^◌, ◌<◌, ◌≡◌, true, false, [], Option, none, some, Bytes, Text,
  is_empty, text_eq_refl, arith,
}
use go_send.Timestamp.{within_timestamp_skew}
use go_send.Crypto.{Primitives, IsBase64, IsX25519, IsHkdf, sign}
use go_send.Crypto.Session.{derive_rekey_session_key}
use go_send.Protocol.{Rekey}
use go_send.Connection.State.{PeerConnection, rotate_session_key}
use go_send.Connection.Secure.{Codec}
use go_send.Connection.Send.{send_message}
use go_send.Connection.Kept.{send_message-HasSameSession}
use go_send.Handshake.Options.{LocalIdentity}
use go_send.Handshake.Honest.{IsIdentity}
use go_send.Messaging.Session.{Session}
use go_send.Rekey.Sign.{sign_rekey, refuse_rekey, verify_rekey-sign_rekey}
use go_send.Rekey.Initiate.{rekey_request, initiate_rekey, handle_rekey_response, finish_rekey}
use go_send.Rekey.Respond.{rekey_response, handle_rekey_request}

-- json.Marshal of the rekey messages: it succeeds, and no payload is empty.
pub record IsRekeyWire (marshal : Rekey → Option Bytes) : Type 0 where
  pub payload : Rekey → Bytes
  pub marshals : (m : Rekey) → marshal m ≡ some (payload m)
  pub non_empty : (m : Rekey) → is_empty (payload m) ≡ false

-- `s` is the end of device `i` of a connection to device `peer`.
pub record IsEnd (p : Primitives) (i peer : LocalIdentity) (s : Session) : Type 0 where
  pub own_id : s.node.device_id ≡ i.device_id
  pub own_key : s.node.private_key ≡ i.ed25519_private_key
  pub peer_id : s.conn.peer_device_id ≡ peer.device_id
  pub peer_key : s.conn.peer_public_key ≡ p.b64_encode peer.ed25519_public_key

-- Both connections are in the next epoch, with one key, and still know their own old key.
pub record IsRekeyed (before after : PeerConnection) (key : Bytes) : Type 0 where
  pub epoch : after.session_epoch ≡ before.session_epoch + 1
  pub current : after.session_key ≡ key
  pub previous : after.previous_session_key ≡ before.session_key

module _ (p : Primitives) (c : Codec) (marshal : Rekey → Option Bytes) (format_uint : ℕ → Text)
    (base64 : IsBase64 p) (x25519 : IsX25519 p) (hkdf : IsHkdf p) (wire : IsRekeyWire marshal) where
  -- A message that the peer signed passes the guards.
  pub refuse_rekey-signed :
      (now : ℕ) (i peer : LocalIdentity) (m signed : Rekey) (s : Session)
      → IsIdentity p peer
      → IsEnd p i peer s
      → sign_rekey p marshal peer.ed25519_private_key m ≡ some signed
      → m.from_device_id ≡ peer.device_id
      → is_empty m.x25519_public_key ≡ false
      → 0 < m.epoch
      → within_timestamp_skew now m.timestamp ≡ true
      → refuse_rekey p marshal now signed s ≡ none
  unfolding refuse_rekey sign_rekey sign
  refuse_rekey-signed now i peer m signed s h e q from x n t =
      let raw = wire.payload (record m { signature = [] }) in
      let ok =
        verify_rekey-sign_rekey p marshal base64 peer m signed raw h
          (wire.marshals (record m { signature = [] }))
          (wire.non_empty (record m { signature = [] })) q in
      let sig = p.ed25519_sign peer.ed25519_private_key raw in
      ground (
        arith,
        ok,
        q,
        from,
        x,
        t,
        e.peer_id,
        e.peer_key,
        h.has_id,
        h.signature_length raw,
        wire.marshals (record m { signature = [] }),
        base64.encode_non_empty sig (is_empty-length sig 63 (h.signature_length raw)),
        text_eq_refl peer.device_id,
      )

  -- What a rotation to the next epoch makes of a connection.
  rotate-next :
      (now : ℕ) (key : Bytes) (pc : PeerConnection)
      → is_empty key ≡ false
      → pc.session_epoch + 1 < 2 ^ 64
      → let (pc', e) = rotate_session_key now key (pc.session_epoch + 1) pc in
        (e ≡ none)
        × (pc'.session_key ≡ key)
        × (pc'.session_epoch ≡ pc.session_epoch + 1)
        × (pc'.previous_session_key ≡ pc.session_key)
  unfolding rotate_session_key
  rotate-next now key pc n h = ground arith

  -- After initiateRekey sent its request it waits for the answer.
  pub initiate-eq :
      (now : ℕ) (a : Bytes) (request : Rekey) (s : Session)
      → s.conn.session_epoch + 1 < 2 ^ 64
      → sign_rekey p marshal s.node.private_key (rekey_request p c marshal format_uint now a s)
        ≡ some request
      → (send_message p c now (marshal request) s.conn).1 ≡ none
      → initiate_rekey p c marshal format_uint now (some a) (record { session = s; waiter = none })
        ≡ record {
          session = record s { conn = (send_message p c now (marshal request) s.conn).0 };
          waiter = some (record {
            private_key = a;
            target_epoch = s.conn.session_epoch + 1;
            response = none;
          });
        }
  unfolding initiate_rekey
  initiate-eq now a request s b q e = ground (arith, b, q, e)

  -- The responder sends its response and rotates.
  pub respond-eq :
      (now : ℕ) (b key : Bytes) (request response : Rekey) (s : Session)
      → refuse_rekey p marshal now request s ≡ none
      → derive_rekey_session_key p format_uint b request.x25519_public_key s.node.device_id
          s.conn.peer_device_id request.epoch
        ≡ some key
      → sign_rekey p marshal s.node.private_key
          (rekey_response p c marshal format_uint now b request.epoch s)
        ≡ some response
      → (send_message p c now (marshal response) s.conn).1 ≡ none
      → let conn = (send_message p c now (marshal response) s.conn).0 in
        (rotate_session_key now key request.epoch conn).1 ≡ none
        → handle_rekey_request p c marshal format_uint now (some b) request s
          ≡ record s { conn = (rotate_session_key now key request.epoch conn).0 }
  unfolding handle_rekey_request
  respond-eq now b key request response s g d q e f = ground (arith, g, d, q, e, f)

  -- The initiator takes the response from the channel and rotates.
  pub finish-eq :
      (t now : ℕ) (a key : Bytes) (epoch : ℕ) (response : Rekey) (s : Session)
      → refuse_rekey p marshal t response s ≡ none
      → response.epoch ≡ epoch
      → derive_rekey_session_key p format_uint a response.x25519_public_key s.node.device_id
          s.conn.peer_device_id epoch
        ≡ some key
      → (rotate_session_key now key epoch s.conn).1 ≡ none
      → finish_rekey p c marshal format_uint now (
          handle_rekey_response p c marshal format_uint t response (record {
            session = s;
            waiter = some (record { private_key = a; target_epoch = epoch; response = none });
          }))
        ≡ record {
          session = record s { conn = (rotate_session_key now key epoch s.conn).0 };
          waiter = none;
        }
  unfolding finish_rekey handle_rekey_response
  finish-eq t now a key epoch response s g n d f = ground (arith, g, n, d, f)

  -- A rotation after a send.
  pub rotate-sent :
      (now at : ℕ) (key : Bytes) (payload : Option Bytes) (pc : PeerConnection)
      → is_empty key ≡ false
      → pc.session_epoch + 1 < 2 ^ 64
      → let sent = (send_message p c at payload pc).0 in
        let (pc', e) = rotate_session_key now key (pc.session_epoch + 1) sent in
        (e ≡ none) × IsRekeyed pc pc' key
  rotate-sent now at key payload pc n h =
      let same = send_message-HasSameSession p c at payload pc in
      let next =
        rotate-next now key (send_message p c at payload pc).0 n (omega (arith, same.epoch)) in
      (ground (arith, next, same), ground (arith, next, same))

  -- An end of a connection stays that after a send.
  pub IsEnd-sent :
      (now : ℕ) (payload : Option Bytes) (i peer : LocalIdentity) (s : Session)
      → IsEnd p i peer s
      → IsEnd p i peer (record s { conn = (send_message p c now payload s.conn).0 })
  IsEnd-sent now payload i peer s h =
      let same = send_message-HasSameSession p c now payload s.conn in ground (arith, h, same)

  -- Signing changes only the signature.
  pub signed-fields :
      (private_key : Bytes) (m signed : Rekey)
      → sign_rekey p marshal private_key m ≡ some signed
      → (signed.epoch ≡ m.epoch) × (signed.x25519_public_key ≡ m.x25519_public_key)
  unfolding sign_rekey sign
  signed-fields private_key m signed q = ground arith
