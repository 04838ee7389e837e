-- ===== src/Messaging/Receive.antt =====
-- network/peer_manager.go: handleIncomingEncryptedMessage.
use go_send.Base.{
  ℕ, Bool, false, not, ◌&&◌, ◌||◌, [], none, some, Bytes, Text, codes, if◌then◌else◌, is_empty,
  text_eq,
}
use go_send.Base.Int.{pos}
use go_send.Timestamp.{within_timestamp_skew}
use go_send.Crypto.{Primitives, decrypt, verify_signed}
use go_send.Protocol.{EncryptedMessage}
use go_send.Connection.State.{validate_sequence}
use go_send.Connection.Secure.{Codec}
use go_send.Connection.Send.{send_message}
use go_send.Storage.Messages.{delivered, Message, done, refused, save_message}
use go_send.Storage.Seen.{insert_seen_id, has_seen_id}
use go_send.Messaging.Node.{reported, replay_rejected, signature_failed, received, Node, note}
use go_send.Messaging.Session.{Wire, Session, unix_milli, log_event, send_error_message, sign_ack}

module _ (p : Primitives) (c : Codec) (w : Wire) where
  -- verifyEncryptedMessageSignature.
  unfoldable pub verify_encrypted_message_signature : Text → EncryptedMessage → Bool
  verify_encrypted_message_signature peer_public_key m =
      not (is_empty m.signature)
      && verify_signed p peer_public_key (w.marshal_message (record m { signature = [] }))
          m.signature

  -- The row that is stored.
  unfoldable pub stored_message : ℕ → EncryptedMessage → Bytes → Message
  stored_message now m plaintext = record {
    message_id = m.message_id;
    from_device_id = m.from_device_id;
    to_device_id = m.to_device_id;
    content = plaintext;
    content_type = if is_empty m.content_type then codes "text" else m.content_type;
    timestamp_sent = m.timestamp;
    timestamp_received = some (unix_milli now);
    is_read = false;
    delivery_status = delivered;
    signature = m.signature;
  }

  -- The acknowledgement at the end.
  unfoldable pub acknowledge : ℕ → EncryptedMessage → Session → Session
  acknowledge now m s =
      elim (sign_ack p c w s.node.private_key (record {
        message_id = m.message_id;
        from_device_id = s.node.device_id;
        status = codes "delivered";
        timestamp = pos (unix_milli now);
        signature = [];
      })) [
        | none ↦ log_event reported s
        | some ack ↦
            let (conn, e) = send_message p c now (w.marshal_ack ack) s.conn in
            let s' = record s { conn = conn } in
            elim e [ none ↦ s' | some _ ↦ log_event reported s' ]
      ]

  -- InsertSeenID: a failure is only reported.
  unfoldable pub mark_seen : ℕ → EncryptedMessage → Node → Node
  mark_seen now m node =
      elim (insert_seen_id (unix_milli now) m.message_id (unix_milli now) node.seen) [
        | none ↦ note reported node
        | some seen ↦ record node { seen = seen }
      ]

  -- From Store.SaveMessage on.
  unfoldable pub store : ℕ → EncryptedMessage → Bytes → Session → Session
  store now m plaintext s =
      let row = stored_message now m plaintext in
      elim (save_message s.node.has_peer (pos (unix_milli now)) row s.node.messages) [
        | refused _ ↦ log_event reported s
        | done rows ↦
            let node = mark_seen now m (record s.node { messages = rows }) in
            acknowledge now m (record s { node = note (received row) node })
      ]

  -- From base64.StdEncoding.DecodeString of the content on.
  unfoldable pub open_content : ℕ → EncryptedMessage → Session → Session
  open_content now m s = elim (p.b64_decode m.encrypted_content) [
    | none ↦ log_event reported s
    | some ciphertext ↦ elim (p.b64_decode m.iv) [
      | none ↦ log_event reported s
      | some iv ↦
          if not (verify_encrypted_message_signature s.conn.peer_public_key m)
          then send_error_message p c w now (codes "invalid_signature")
              (codes "message signature verification failed") m.message_id
              (log_event (signature_failed m.from_device_id) (log_event reported s))
          else elim (decrypt p s.conn.session_key iv ciphertext) [
            | none ↦
                send_error_message p c w now (codes "decryption_failed")
                  (codes "message decryption failed") m.message_id (log_event reported s)
            | some plaintext ↦ store now m plaintext s
          ]
    ]
  ]

  -- HasSeenID and what follows.
  unfoldable pub check_seen : ℕ → EncryptedMessage → Session → Session
  check_seen now m s = elim (has_seen_id m.message_id s.node.seen) [
    | none ↦ log_event reported s
    | some seen ↦
        if seen
        then log_event (replay_rejected m.from_device_id) (log_event reported s)
        else open_content now m s
  ]

  -- ValidateSequence and what follows.
  unfoldable pub check_sequence : ℕ → EncryptedMessage → Session → Session
  check_sequence now m s =
      let (conn, e) = validate_sequence s.conn m.sequence in
      elim e [
        | some _ ↦ log_event (replay_rejected m.from_device_id) (log_event reported s)
        | none ↦ check_seen now m (record s { conn = conn })
      ]

  -- handleIncomingEncryptedMessage, at the clock `now` in nanoseconds.
  unfoldable pub receive : ℕ → EncryptedMessage → Session → Session
  receive now m s =
      if is_empty m.message_id || is_empty m.from_device_id || is_empty m.to_device_id
      then s
      else if not (text_eq m.from_device_id s.conn.peer_device_id)
      then log_event reported s
      else if not (text_eq m.to_device_id s.node.device_id)
      then s
      else if not (within_timestamp_skew now m.timestamp)
      then send_error_message p c w now (codes "timestamp_out_of_range")
          (codes "message timestamp outside allowed skew") m.message_id (log_event reported s)
      else check_sequence now m s
