-- ===== src/Messaging/Acked.antt =====
-- Which rows an acknowledgement or an error message can change.
use go_send.Base.{
  ℕ, ◌≡◌, ◌⊎◌, [], ◌∷◌, ◌++◌, none, inl, inr, true, refl, not, ◌&&◌, ◌||◌, List, Option, some, Text,
  codes, is_empty, text_eq, text_eq_iff, text_eq_refl, if◌then◌else◌, Bool-cases, Option-cases,
  arith,
}
use go_send.Crypto.{Primitives}
use go_send.Protocol.{AckMessage, ErrorMessage}
use go_send.Connection.Secure.{Codec}
use go_send.Storage.Messages.{
  DeliveryStatus, pending, sent, delivered, failed, Message, done, parse_status, find_message,
  get_message_by_id, update_delivery_status, update_status_text,
}
use go_send.Storage.Pending.{set_status-absent}
use go_send.Storage.Marked.{
  with_status-none, with_status, is_named, set_status-with_status, find_message-id,
}
use go_send.Messaging.Node.{reported}
use go_send.Messaging.Session.{Wire, Session, send_error_message}
use go_send.Messaging.Opened.{Stored-cases}
use go_send.Messaging.Ack.{apply_status, handle_protocol_error, verify_ack, handle_ack}

-- The status that an acknowledgement names; no status means delivered.
abbrev named_status : Text → Option DeliveryStatus
named_status t =
    if is_empty t || text_eq t (codes "delivered")
    then some delivered
    else if text_eq t (codes "pending")
    then some pending
    else if text_eq t (codes "sent")
    then some sent
    else if text_eq t (codes "failed")
    then some failed
    else none

-- A status update that succeeds sets the named status.
apply_status-done :
    (id status : Text) (rows rows' : List Message)
    → apply_status id status rows ≡ done rows'
    → (s : DeliveryStatus) × (named_status status ≡ some s)
      × (rows' ≡ with_status s (is_named id) rows)
unfolding apply_status update_status_text update_delivery_status parse_status
apply_status-done id status rows rows' h = elim (Option-cases (named_status status)) [
  | inl e ↦ absurd (ground (arith, h, e))
  | inr (s, e) ↦ (
    s,
    e,
    ground (arith, h, e, text_eq_refl (codes "delivered"), set_status-with_status id s rows),
  )
]

module _ (p : Primitives) (c : Codec) (w : Wire) where
  -- The evidence for a status that an acknowledgement changed.
  pub record IsAcked (ack : AckMessage) (s : Session) (rows : List Message) : Type 0 where
    pub sender : ack.from_device_id ≡ s.conn.peer_device_id
    pub signed : verify_ack p c w s.conn.peer_public_key ack ≡ true
    pub stored : Message
    pub found : find_message ack.message_id s.node.messages ≡ some stored
    pub same_id : stored.message_id ≡ ack.message_id
    pub own : stored.from_device_id ≡ s.node.device_id
    pub route : stored.to_device_id ≡ s.conn.peer_device_id
    pub status : DeliveryStatus
    pub named : named_status ack.status ≡ some status
    pub changed : rows ≡ with_status status (is_named ack.message_id) s.node.messages

  -- An acknowledgement changes the table only if it is the peer's, verifies under the peer's key,
  -- and names a message from this device to that peer. Then the rows with that ID have the status
  -- that it names, delivered if it names none, and the table is otherwise as it was.
  pub handle_ack_route :
      (now : ℕ) (ack : AckMessage) (s : Session)
      → let rows = (handle_ack p c w now ack s).node.messages in
        (rows ≡ s.node.messages) ⊎ IsAcked ack s rows
  unfolding handle_ack get_message_by_id send_error_message
  handle_ack_route now ack s = elim (Option-cases (find_message ack.message_id s.node.messages)) [
    | inl e ↦ inl (ground (arith, e))
    | inr (m, e) ↦
        elim (Bool-cases (
          not (is_empty ack.message_id || is_empty ack.signature)
          && not (is_empty s.conn.peer_device_id || is_empty ack.from_device_id)
          && text_eq ack.from_device_id s.conn.peer_device_id
          && verify_ack p c w s.conn.peer_public_key ack
          && text_eq m.from_device_id s.node.device_id
          && text_eq m.to_device_id s.conn.peer_device_id)) [
            | inr f ↦ inl (ground (arith, e, f))
            | inl f ↦ elim (Stored-cases (apply_status ack.message_id ack.status s.node.messages)) [
              | inr (x, q) ↦ inl (ground (arith, e, f, q))
              | inl (rows, q) ↦
                  let (status, named, changed) =
                    apply_status-done ack.message_id ack.status s.node.messages rows q in
                  inr (record {
                    sender =
                        ground (arith, f, text_eq_iff ack.from_device_id s.conn.peer_device_id);
                    signed = ground (arith, f);
                    stored = m;
                    found = e;
                    same_id = find_message-id ack.message_id s.node.messages m e;
                    own = ground (arith, f, text_eq_iff m.from_device_id s.node.device_id);
                    route = ground (arith, f, text_eq_iff m.to_device_id s.conn.peer_device_id);
                    status = status;
                    named = named;
                    changed = ground (arith, e, f, q, changed);
                  })
            ]
          ]
  ]

-- The rows that an ID names, where an empty ID names none.
with_status-named :
    (id : Text) (rows : List Message)
    → with_status failed (λ m. not (is_empty id) && text_eq m.message_id id) rows
      ≡ (if is_empty id then rows else with_status failed (is_named id) rows)
with_status-named id rows = elim (Bool-cases (is_empty id)) [
  | inl e ↦ rw e (with_status-none failed rows)
  | inr e ↦ rw e refl
]

-- An error message fails exactly the rows with the ID that it names, and none if it names no ID.
-- Nothing else in the table changes, and it does not depend on the connection that the error came
-- on: neither the sender nor the recipient of the message is looked at. The error is
-- reported once.
pub handle_protocol_error_any :
    (e : ErrorMessage) (s : Session)
    → let id = e.related_message_id in
      let s' = handle_protocol_error e s in
      (s'.node.messages
        ≡ with_status failed (λ m. not (is_empty id) && text_eq m.message_id id) s.node.messages)
      × (s'.node.log ≡ s.node.log ++ (reported ∷ []))
      × (s'.conn ≡ s.conn)
unfolding handle_protocol_error update_delivery_status
handle_protocol_error_any e s =
    let id = e.related_message_id in
    let rows = s.node.messages in
    let named = with_status-named id rows in
    elim (Bool-cases (is_empty id)) [
      | inl n ↦ ground (arith, n, named)
      | inr n ↦ elim (Option-cases (find_message id rows)) [
        | inl f ↦ ground (
          arith,
          n,
          f,
          named,
          set_status-absent id failed rows f,
          set_status-with_status id failed rows,
        )
        | inr (m, f) ↦ ground (arith, n, f, named, set_status-with_status id failed rows)
      ]
    ]
