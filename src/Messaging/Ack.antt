-- ===== src/Messaging/Ack.antt =====
-- network/peer_manager.go: handleAck and handleProtocolError.
use go_send.Base.{ℕ, Bool, not, ◌||◌, List, [], Text, codes, is_empty, text_eq, if◌then◌else◌}
use go_send.Crypto.{Primitives, verify_signed}
use go_send.Protocol.{AckMessage, ErrorMessage}
use go_send.Connection.Secure.{Codec}
use go_send.Storage.Messages.{
  delivered, failed, Message, Stored, done, refused, is_not_found, get_message_by_id,
  update_delivery_status, update_status_text,
}
use go_send.Messaging.Node.{reported, signature_failed}
use go_send.Messaging.Session.{Wire, Session, log_event, send_error_message}

-- The result of a status update: a failure other than ErrNotFound is reported.
abbrev pub set_rows : Stored (List Message) → Session → Session
set_rows (done rows) s = record s { node = record s.node { messages = rows } }
set_rows (refused e) s = if is_not_found e then s else log_event reported s

-- MarkDelivered or UpdateDeliveryStatus; no status means delivered.
unfoldable pub apply_status : Text → Text → List Message → Stored (List Message)
apply_status id status rows =
    let status = if is_empty status then codes "delivered" else status in
    if text_eq status (codes "delivered")
    then update_delivery_status id delivered rows
    else update_status_text id status rows

-- handleProtocolError.
unfoldable pub handle_protocol_error : ErrorMessage → Session → Session
handle_protocol_error e s = log_event reported (
    if is_empty e.related_message_id
    then s
    else set_rows (update_delivery_status e.related_message_id failed s.node.messages) s)

module _ (p : Primitives) (c : Codec) (w : Wire) where
  -- verifyAck.
  unfoldable pub verify_ack : Text → AckMessage → Bool
  verify_ack peer_public_key ack =
      verify_signed p peer_public_key (w.marshal_ack (record ack { signature = [] })) ack.signature

  -- handleAck.
  unfoldable pub handle_ack : ℕ → AckMessage → Session → Session
  handle_ack now ack s =
      if is_empty ack.message_id || is_empty ack.signature
      then s
      else if is_empty s.conn.peer_device_id || is_empty ack.from_device_id
      then s
      else if not (text_eq ack.from_device_id s.conn.peer_device_id)
      then log_event reported s
      else if not (verify_ack s.conn.peer_public_key ack)
      then send_error_message p c w now (codes "invalid_signature")
          (codes "ack signature verification failed") ack.message_id
          (log_event (signature_failed s.conn.peer_device_id) (log_event reported s))
      else elim (get_message_by_id ack.message_id s.node.messages) [
        | refused e ↦ if is_not_found e then s else log_event reported s
        | done stored ↦
            if not (text_eq stored.from_device_id s.node.device_id)
              || not (text_eq stored.to_device_id s.conn.peer_device_id)
            then log_event reported s
            else set_rows (apply_status ack.message_id ack.status s.node.messages) s
      ]
