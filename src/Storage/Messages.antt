-- ===== src/Storage/Messages.antt =====
-- storage/messages.go: the messages table. Rows stand in the order of insertion.
use go_send.Base.{
  ℕ, ◌+◌, Bool, true, false, not, ◌&&◌, ◌||◌, List, [], ◌∷◌, ◌++◌, map, Option, none, some, Bytes,
  Text, codes, if◌then◌else◌, is_empty, ltb, text_eq, select,
}
use go_send.Base.Int.{is_zero, ℤ, pos, pos_part, neg_part}

-- The CHECK values of delivery_status.
pub data DeliveryStatus : Type 0 where
  pending sent delivered failed : DeliveryStatus

abbrev pub is_pending : DeliveryStatus → Bool
is_pending pending = true
is_pending _ = false

-- validateDeliveryStatus, with the value that it admits.
unfoldable pub parse_status : Text → Option DeliveryStatus
parse_status s =
    if text_eq s (codes "pending")
    then some pending
    else if text_eq s (codes "sent")
    then some sent
    else if text_eq s (codes "delivered")
    then some delivered
    else if text_eq s (codes "failed")
    then some failed
    else none

-- validateContentType.
unfoldable pub is_content_type : Text → Bool
is_content_type s =
    text_eq s (codes "text") || text_eq s (codes "image") || text_eq s (codes "file")

pub record Message : Type 0 where
  pub message_id : Text
  pub from_device_id : Text
  pub to_device_id : Text
  pub content : Bytes
  pub content_type : Text
  pub timestamp_sent : ℤ
  pub timestamp_received : Option ℕ
  pub is_read : Bool
  pub delivery_status : DeliveryStatus
  pub signature : Text

pub data StoreError : Type 0 where
  required invalid not_found constraint : StoreError

pub data Stored {ℓ} (A : Type ℓ) : Type ℓ where
  done : A → Stored A
  refused : StoreError → Stored A

-- errors.Is(err, storage.ErrNotFound).
abbrev pub is_not_found : StoreError → Bool
is_not_found not_found = true
is_not_found _ = false

-- a < b on int64.
abbrev pub ltb_ℤ : ℤ → ℤ → Bool
ltb_ℤ a b = ltb (pos_part a + neg_part b) (pos_part b + neg_part a)

-- GetMessageByID; none is the error for an empty ID or ErrNotFound.
unfoldable pub find_message : Text → List Message → Option Message
find_message id [] = none
find_message id (m ∷ rows) =
    let rest = find_message id rows in if text_eq m.message_id id then some m else rest

unfoldable pub get_message_by_id : Text → List Message → Stored Message
unfolding find_message
get_message_by_id id rows =
    if is_empty id
    then refused required
    else elim (find_message id rows) [ none ↦ refused not_found | some m ↦ done m ]

-- Whether an ID occurs: the PRIMARY KEY constraint.
abbrev pub is_some {ℓ} : {A : Type ℓ} → Option A → Bool
is_some none = false
is_some (some a) = true

-- SaveMessage. `peer` tells which device IDs the peers table has (the REFERENCES constraints),
-- `now` is nowUnixMilli.
unfoldable pub save_message : (Text → Bool) → ℤ → Message → List Message → Stored (List Message)
unfolding is_content_type
save_message peer now m rows =
    if is_empty m.message_id
      || is_empty m.from_device_id
      || is_empty m.to_device_id
      || is_empty m.content
    then refused required
    else (let kind = if is_empty m.content_type then codes "text" else m.content_type in
        if not (is_content_type kind)
        then refused invalid
        else if is_some (find_message m.message_id rows)
            || not (peer m.from_device_id)
            || not (peer m.to_device_id)
        then refused constraint
        else done (
            rows
            ++ (record m {
              content_type = kind;
              timestamp_sent = if is_zero m.timestamp_sent then now else m.timestamp_sent;
            }
                ∷ [])))

-- `UPDATE messages SET delivery_status = ? WHERE message_id = ?`.
unfoldable pub set_status : Text → DeliveryStatus → List Message → List Message
set_status id s [] = []
set_status id s (m ∷ rows) =
    (if text_eq m.message_id id then record m { delivery_status = s } else m) ∷ set_status id s rows

-- UpdateDeliveryStatus with a status that is known to be valid; MarkDelivered at `delivered`.
unfoldable pub update_delivery_status : Text → DeliveryStatus → List Message → Stored (List Message)
update_delivery_status id s rows =
    if is_empty id
    then refused required
    else if not (is_some (find_message id rows))
    then refused not_found
    else done (set_status id s rows)

-- UpdateDeliveryStatus with a status as text.
unfoldable pub update_status_text : Text → Text → List Message → Stored (List Message)
unfolding update_delivery_status
update_status_text id s rows = if is_empty id then refused required else elim (parse_status s) [
  | none ↦ refused invalid
  | some status ↦ update_delivery_status id status rows
]

-- PruneExpiredQueue: pending rows sent before the cutoff fail.
abbrev pub is_expired : ℤ → Message → Bool
is_expired cutoff m = is_pending m.delivery_status && ltb_ℤ m.timestamp_sent cutoff

abbrev pub fail_expired : ℤ → Message → Message
fail_expired cutoff m = if is_expired cutoff m then record m { delivery_status = failed } else m

unfoldable pub prune_expired_queue : ℤ → List Message → Stored (List Message)
prune_expired_queue cutoff rows =
    if not (ltb_ℤ (pos 0) cutoff) then refused required else done (map (fail_expired cutoff) rows)

-- DeleteMessagesOlderThan.
unfoldable pub delete_messages_older_than : ℤ → List Message → Stored (List Message)
delete_messages_older_than cutoff rows =
    if not (ltb_ℤ (pos 0) cutoff)
    then refused required
    else done (select (λ m. not (ltb_ℤ m.timestamp_sent cutoff)) rows)

-- DeleteMessagesForPeer.
unfoldable pub delete_messages_for_peer : Text → List Message → Stored (List Message)
delete_messages_for_peer peer_id rows =
    if is_empty peer_id
    then refused required
    else done (
        select (λ m. not (text_eq m.from_device_id peer_id || text_eq m.to_device_id peer_id)) rows)

-- `ORDER BY timestamp_sent ASC`, rows of one timestamp in the order of insertion.
unfoldable pub insert_by_time : Message → List Message → List Message
insert_by_time m [] = m ∷ []
insert_by_time m (n ∷ rows) =
    let rest = insert_by_time m rows in
    if ltb_ℤ n.timestamp_sent m.timestamp_sent then n ∷ rest else m ∷ n ∷ rows

unfoldable pub order_by_time : List Message → List Message
unfolding insert_by_time
order_by_time [] = []
order_by_time (m ∷ rows) = insert_by_time m (order_by_time rows)

abbrev pub is_pending_for : Text → Message → Bool
is_pending_for peer_id m = text_eq m.to_device_id peer_id && is_pending m.delivery_status

-- GetPendingMessages.
unfoldable pub get_pending_messages : Text → List Message → Stored (List Message)
get_pending_messages peer_id rows =
    if is_empty peer_id
    then refused required
    else done (order_by_time (select (is_pending_for peer_id) rows))
