-- ===== src/Messaging/Outgoing.antt =====
-- network/peer_manager.go: buildEncryptedMessage, sendTextMessageWithID, and the drain of the queue
-- once a peer is connected.
use go_send.Base.{
  ℕ, ◌+◌, false, [], ◌∷◌, List, Option, none, some, Bytes, Text, codes, if◌then◌else◌,
}
use go_send.Base.Int.{ℤ, pos, is_zero}
use go_send.Crypto.{Primitives, encrypt}
use go_send.Protocol.{EncryptedMessage}
use go_send.Connection.State.{ConnError, PeerConnection, is_disconnected, next_send_sequence}
use go_send.Connection.Secure.{Codec}
use go_send.Connection.Send.{send_message}
use go_send.Storage.Messages.{
  DeliveryStatus, pending, sent, Message, StoreError, done, refused, is_not_found, is_pending,
  save_message, update_delivery_status, get_pending_messages,
}
use go_send.Messaging.Node.{reported, Node, note}
use go_send.Messaging.Limits.{panicked, error, enforced, enforce_queue_limits}
use go_send.Messaging.Session.{Wire, Session, unix_milli, sign_encrypted_message}

-- The errors that the functions return.
pub data SendError : Type 0 where
  not_built queue_panic : SendError
  not_sent : ConnError → SendError
  not_stored : StoreError → SendError

-- The connection to the peer, if there is one, with the node.
pub record Outbox : Type 0 where
  pub conn : Option PeerConnection
  pub node : Node

module _ (p : Primitives) (c : Codec) (w : Wire) where
  -- The message before it is signed.
  unfoldable pub unsigned_message : ℕ → Text → ℤ → Bytes → Bytes → ℕ → Session → EncryptedMessage
  unsigned_message now message_id timestamp ciphertext iv sequence s = record {
    message_id = message_id;
    from_device_id = s.node.device_id;
    to_device_id = s.conn.peer_device_id;
    content_type = codes "text";
    sequence = sequence;
    encrypted_content = p.b64_encode ciphertext;
    iv = p.b64_encode iv;
    timestamp = if is_zero timestamp then pos (unix_milli now) else timestamp;
    signature = [];
  }

  -- buildEncryptedMessage: none is an error. The sequence number is used up once the content is
  -- encrypted.
  unfoldable pub build_encrypted_message :
      ℕ → Text → Bytes → ℤ → Session → Session × Option EncryptedMessage
  build_encrypted_message now message_id content timestamp s =
      let drawn = record s.conn { draws = s.conn.draws + 1 } in
      elim (encrypt p s.conn.draws s.conn.session_key content) [
        | none ↦ (record s { conn = drawn }, none)
        | some (ciphertext, iv) ↦
            let (conn, sequence) = next_send_sequence drawn in
            (
              record s { conn = conn },
              sign_encrypted_message p c w s.node.private_key
                  (unsigned_message now message_id timestamp ciphertext iv sequence s),
            )
      ]

  -- sendPendingMessage: none is success.
  unfoldable pub send_pending_message : ℕ → Message → Session → Session × Option SendError
  send_pending_message now m s =
      let (s', built) = build_encrypted_message now m.message_id m.content m.timestamp_sent s in
      elim built [
        | none ↦ (s', some not_built)
        | some message ↦
            let (conn, e) = send_message p c now (w.marshal_message message) s'.conn in
            let gone = record s' { conn = conn } in
            elim e [
              | some x ↦ (gone, some (not_sent x))
              | none ↦ elim (update_delivery_status m.message_id sent gone.node.messages) [
                | done rows ↦ (record gone { node = record gone.node { messages = rows } }, none)
                | refused x ↦ if is_not_found x then (gone, none) else (gone, some (not_stored x))
              ]
            ]
      ]

  -- The loop of drainPendingMessages.
  unfoldable pub drain_list : ℕ → List Message → Session → Session × Option SendError
  drain_list now [] s = (s, none)
  drain_list now (m ∷ ms) s =
      let (s', e) = send_pending_message now m s in
      let rest = drain_list now ms s' in
      if is_disconnected s.conn.state
      then (s, none)
      else elim e [ none ↦ rest | some x ↦ (s', some x) ]

  -- drainPendingMessages, while the manager runs.
  unfoldable pub drain_pending_messages : ℕ → Text → Session → Session × Option SendError
  drain_pending_messages now peer s = elim (enforce_queue_limits (unix_milli now) peer s.node) [
    | panicked ↦ (s, some queue_panic)
    | error e node ↦ (record s { node = node }, some (not_stored e))
    | enforced node ↦ elim (get_pending_messages peer node.messages) [
      | refused e ↦ (record s { node = node }, some (not_stored e))
      | done queue ↦ drain_list now queue (record s { node = node })
    ]
  ]

  -- sendTextMessageWithID from SaveMessage on.
  unfoldable pub store_outgoing :
      ℕ → Text → Text → Bytes → ℤ → DeliveryStatus → Text → Outbox → Outbox × Option SendError
  store_outgoing now peer message_id content timestamp status signature o =
      elim (save_message o.node.has_peer (pos (unix_milli now))
        (record {
          message_id = message_id;
          from_device_id = o.node.device_id;
          to_device_id = peer;
          content = content;
          content_type = codes "text";
          timestamp_sent = timestamp;
          timestamp_received = none;
          is_read = false;
          delivery_status = status;
          signature = signature;
        })
        o.node.messages) [
          | refused e ↦ (o, some (not_stored e))
          | done rows ↦
              let node = record o.node { messages = rows } in
              if is_pending status
              then elim (enforce_queue_limits (unix_milli now) peer node) [
                | panicked ↦ (record o { node = node }, some queue_panic)
                | error e node' ↦ (record o { node = node' }, some (not_stored e))
                | enforced node' ↦ (record o { node = node' }, none)
              ]
              else (record o { node = node }, none)
        ]

  -- sendTextMessageWithID: with no connection, or when the send fails, the message is queued.
  unfoldable pub send_text_message_with_id :
      ℕ → Text → Text → Bytes → ℤ → Outbox → Outbox × Option SendError
  unfolding store_outgoing
  send_text_message_with_id now peer message_id content timestamp o =
      let queue = store_outgoing now peer message_id content timestamp pending [] o in
      elim o.conn [
        | none ↦ queue
        | some conn ↦
            if is_disconnected conn.state
            then queue
            else (let (s, built) =
                  build_encrypted_message now message_id content timestamp
                    (record { conn = conn; node = o.node }) in
                elim built [
                  | none ↦ (record o { conn = some s.conn }, some not_built)
                  | some message ↦
                      let (gone, e) = send_message p c now (w.marshal_message message) s.conn in
                      let o' = record o { conn = some gone } in
                      elim e [
                        | some _ ↦
                            store_outgoing now peer message_id content timestamp pending []
                              (record o' { node = note reported o.node })
                        | none ↦
                            store_outgoing now peer message_id content timestamp sent
                              message.signature o'
                      ]
                ])
      ]
