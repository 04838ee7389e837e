-- ===== src/Rekey/Exchange.antt =====
-- A whole rekey between two devices.
use go_send.Base.{
  is_empty-length, ℕ, ◌+◌, ◌/◌, ◌^◌, ◌<◌, ◌≡◌, true, false, Option, none, some, Bytes, Text,
  is_empty, arith,
}
use go_send.Base.Int.{pos}
use go_send.Timestamp.{within_timestamp_skew}
use go_send.Crypto.{Primitives, IsBase64, IsX25519, IsHkdf}
use go_send.Crypto.Session.{derive_rekey_session_key}
use go_send.Crypto.Agreement.{derive_rekey_session_key_agrees, derive_rekey_session_key-length}
use go_send.Protocol.{Rekey}
use go_send.Connection.Secure.{Codec}
use go_send.Connection.Send.{send_message}
use go_send.Connection.Kept.{send_message-HasSameSession}
use go_send.Handshake.Options.{LocalIdentity}
use go_send.Handshake.Honest.{IsIdentity}
use go_send.Messaging.Session.{Session}
use go_send.Rekey.Sign.{sign_rekey, refuse_rekey}
use go_send.Rekey.Initiate.{rekey_request, initiate_rekey, handle_rekey_response, finish_rekey}
use go_send.Rekey.Respond.{rekey_response, handle_rekey_request}
use go_send.Rekey.Steps.{
  IsRekeyWire, IsEnd, IsRekeyed, refuse_rekey-signed, initiate-eq, respond-eq, finish-eq,
  rotate-sent, IsEnd-sent, signed-fields,
}

module _ (p : Primitives) (c : Codec) (marshal : Rekey → Option Bytes) (format_uint : ℕ → Text)
    (base64 : IsBase64 p) (x25519 : IsX25519 p) (hkdf : IsHkdf p) (wire : IsRekeyWire marshal) where
  responder-IsRekeyed :
      (now : ℕ) (b key : Bytes) (request response : Rekey) (s : Session)
      → refuse_rekey p marshal now request s ≡ none
      → request.epoch ≡ s.conn.session_epoch + 1
      → derive_rekey_session_key p format_uint b request.x25519_public_key s.node.device_id
          s.conn.peer_device_id request.epoch
        ≡ some key
      → sign_rekey p marshal s.node.private_key
          (rekey_response p c marshal format_uint now b request.epoch s)
        ≡ some response
      → (send_message p c now (marshal response) s.conn).1 ≡ none
      → is_empty key ≡ false
      → s.conn.session_epoch + 1 < 2 ^ 64
      → IsRekeyed s.conn
          (handle_rekey_request p c marshal format_uint now (some b) request s).conn
          key
  responder-IsRekeyed now b key request response s g n d q e long bound =
      let (ok, done) =
        rotate-sent p c marshal format_uint base64 x25519 hkdf wire now now key (marshal response)
          s.conn long bound in
      rw
        (
          respond-eq p c marshal format_uint base64 x25519 hkdf wire now b key request response s g
              d q e (rw n ok),
          n,
        )
        done

  initiator-IsRekeyed :
      (t1 t3 t4 : ℕ) (a key : Bytes) (request response : Rekey) (s : Session)
      → s.conn.session_epoch + 1 < 2 ^ 64
      → sign_rekey p marshal s.node.private_key (rekey_request p c marshal format_uint t1 a s)
        ≡ some request
      → (send_message p c t1 (marshal request) s.conn).1 ≡ none
      → let sent = record s { conn = (send_message p c t1 (marshal request) s.conn).0 } in
        refuse_rekey p marshal t3 response sent ≡ none
        → response.epoch ≡ s.conn.session_epoch + 1
        → derive_rekey_session_key p format_uint a response.x25519_public_key s.node.device_id
            s.conn.peer_device_id
            (s.conn.session_epoch + 1)
          ≡ some key
        → is_empty key ≡ false
        → IsRekeyed s.conn
            (finish_rekey p c marshal format_uint t4 (
              handle_rekey_response p c marshal format_uint t3 response (
                initiate_rekey p c marshal format_uint t1
                  (some a)
                  (record { session = s; waiter = none })))).session.conn
            key
  initiator-IsRekeyed t1 t3 t4 a key request response s bound q e g n d long =
      let sent = record s { conn = (send_message p c t1 (marshal request) s.conn).0 } in
      let same = send_message-HasSameSession p c t1 (marshal request) s.conn in
      let (ok, done) =
        rotate-sent p c marshal format_uint base64 x25519 hkdf wire t4 t1 key (marshal request)
          s.conn long bound in
      rw
        (
          initiate-eq p c marshal format_uint base64 x25519 hkdf wire t1 a request s bound q e,
          finish-eq p c marshal format_uint base64 x25519 hkdf wire t3 t4 a key
              (s.conn.session_epoch + 1) response sent g n (rw same.peer d) ok,
        )
        done

  -- Two devices with key pairs at the ends of one connection, whose epochs agree and can still
  -- grow, and whose ephemeral keys give a shared secret that is not empty: if the request and the
  -- response are sent and arrive within the time window, the initiator and the responder end in the
  -- next epoch with one key, and each keeps its old key for the frames that are still on the way.
  pub rekey_agrees :
      (ia ib : LocalIdentity) (here there : Session) (t1 t2 t3 t4 : ℕ) (a b secret : Bytes)
      (request response : Rekey)
      → IsIdentity p ia
      → IsIdentity p ib
      → IsEnd p ia ib here
      → IsEnd p ib ia there
      → there.conn.session_epoch ≡ here.conn.session_epoch
      → here.conn.session_epoch + 1 < 2 ^ 64
      → p.x25519_ecdh a (p.x25519_public b) ≡ some secret
      → is_empty secret ≡ false
      → is_empty (p.b64_encode (p.x25519_public a)) ≡ false
      → is_empty (p.b64_encode (p.x25519_public b)) ≡ false
      → within_timestamp_skew t2 (pos (t1 / 1_000_000)) ≡ true
      → within_timestamp_skew t3 (pos (t2 / 1_000_000)) ≡ true
      → sign_rekey p marshal ia.ed25519_private_key
          (rekey_request p c marshal format_uint t1 a here)
        ≡ some request
      → sign_rekey p marshal ib.ed25519_private_key
          (rekey_response p c marshal format_uint t2 b (here.conn.session_epoch + 1) there)
        ≡ some response
      → (send_message p c t1 (marshal request) here.conn).1 ≡ none
      → (send_message p c t2 (marshal response) there.conn).1 ≡ none
      → let waiting =
          initiate_rekey p c marshal format_uint t1
            (some a)
            (record { session = here; waiter = none }) in
        let there' = handle_rekey_request p c marshal format_uint t2 (some b) request there in
        let here' =
          finish_rekey p c marshal format_uint t4
            (handle_rekey_response p c marshal format_uint t3 response waiting) in
        (key : Bytes) × IsRekeyed here.conn here'.session.conn key
        × IsRekeyed there.conn there'.conn key
  unfolding rekey_request rekey_response
  rekey_agrees ia ib here there t1 t2 t3 t4 a b secret request response ha hb eh et same bound e n
        na nb w2 w3 q r sh st =
      let epoch = here.conn.session_epoch + 1 in
      let (key, da, db) =
        derive_rekey_session_key_agrees p base64 x25519 format_uint a b secret ia.device_id
          ib.device_id epoch e n ha.named hb.named in
      let long = is_empty-length key 31 (
        derive_rekey_session_key-length p hkdf format_uint a (p.b64_encode (p.x25519_public b))
          ia.device_id ib.device_id epoch key da) in
      let m = rekey_request p c marshal format_uint t1 a here in
      let m' = rekey_response p c marshal format_uint t2 b epoch there in
      let asked =
        signed-fields p c marshal format_uint base64 x25519 hkdf wire ia.ed25519_private_key m
          request q in
      let answered =
        signed-fields p c marshal format_uint base64 x25519 hkdf wire ib.ed25519_private_key m'
          response r in
      let here_end =
        IsEnd-sent p c marshal format_uint base64 x25519 hkdf wire t1 (marshal request) ia ib here
          eh in
      (
        key,
        initiator-IsRekeyed t1 t3 t4 a key request response here bound (rw eh.own_key q) sh
            (refuse_rekey-signed p c marshal format_uint base64 x25519 hkdf wire t3 ia ib m'
              response _ hb here_end r et.own_id nb (omega arith) w3)
            answered.0 (rw (answered.1, eh.own_id, eh.peer_id) da) long,
        responder-IsRekeyed t2 b key request response there
            (refuse_rekey-signed p c marshal format_uint base64 x25519 hkdf wire t2 ib ia m request
              there ha et q eh.own_id na (ground (arith, bound)) w2)
            (ground (arith, asked, same, bound))
            (ground (arith, asked, et.own_id, et.peer_id, db, bound))
            (ground (arith, asked, et.own_key, r, bound)) st long (omega arith),
      )
