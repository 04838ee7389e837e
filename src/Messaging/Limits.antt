-- ===== src/Messaging/Limits.antt =====
-- network/peer_manager.go: enforceQueueLimits.
use go_send.Base.{
  ℕ, ◌+◌, ◌-◌, ◌*◌, Bool, ◌||◌, List, [], ◌∷◌, Text, if◌then◌else◌, is_empty, ltb, ◌==◌, length,
}
use go_send.Base.Int.{pos, ◌-ℤ◌}
use go_send.Storage.Messages.{
  failed, Message, StoreError, is_not_found, done, refused, update_delivery_status,
  prune_expired_queue, get_pending_messages,
}
use go_send.Messaging.Node.{overflow, Node, note}

-- 7 days in milliseconds, 500 messages, 50 MB.
abbrev pub max_queue_age : ℕ
max_queue_age = 604_800_000

abbrev pub max_queued_messages : ℕ
max_queued_messages = 500

abbrev pub max_queued_bytes_per_peer : ℕ
max_queued_bytes_per_peer = 50 * 1024 * 1024

-- len(content) summed over the queue.
unfoldable pub total_bytes : List Message → ℕ
total_bytes [] = 0
total_bytes (m ∷ ms) = length m.content + total_bytes ms

abbrev pub is_over : ℕ → ℕ → Bool
is_over count bytes = ltb max_queued_messages count || ltb max_queued_bytes_per_peer bytes

-- The outcome of the loop: an index past the end, a storage error, or the rows and the count.
pub data Dropped : Type 0 where
  panic : Dropped
  failed_with : StoreError → List Message → Dropped
  finished : List Message → ℕ → Dropped

-- `for len(pending)-dropped > maxQueuedMessages || totalBytes > maxQueuedBytesPerPeer`: the list is
-- pending[dropped:], `count` its length as Go computes it.
unfoldable pub drop_oldest : List Message → ℕ → ℕ → ℕ → List Message → Dropped
drop_oldest [] count bytes dropped rows =
    if is_over count bytes then panic else finished rows dropped
drop_oldest (oldest ∷ rest) count bytes dropped rows =
    if is_over count bytes
    then elim (update_delivery_status oldest.message_id failed rows) [
      | done rows' ↦
          drop_oldest rest (count - 1) (bytes - length oldest.content) (dropped + 1) rows'
      | refused e ↦
          if is_not_found e
          then drop_oldest rest (count - 1) (bytes - length oldest.content) (dropped + 1) rows
          else failed_with e rows
    ]
    else finished rows dropped

-- What enforceQueueLimits returns, with the node after it.
pub data Enforced : Type 0 where
  panicked : Enforced
  error : StoreError → Node → Enforced
  enforced : Node → Enforced

-- OnQueueOverflow and the security event, once something was dropped.
unfoldable pub report_dropped : Text → ℕ → Node → Node
report_dropped peer dropped node = if dropped == 0 then node else note (overflow peer dropped) node

-- `now` is the clock in milliseconds.
unfoldable pub enforce_queue_limits : ℕ → Text → Node → Enforced
enforce_queue_limits now peer node =
    if is_empty peer
    then enforced node
    else elim (prune_expired_queue (pos now -ℤ pos max_queue_age) node.messages) [
      | refused e ↦ error e node
      | done pruned ↦ elim (get_pending_messages peer pruned) [
        | refused e ↦ error e (record node { messages = pruned })
        | done queue ↦ elim (drop_oldest queue (length queue) (total_bytes queue) 0 pruned) [
          | panic ↦ panicked
          | failed_with e rows ↦ error e (record node { messages = rows })
          | finished rows dropped ↦
              enforced (report_dropped peer dropped (record node { messages = rows }))
        ]
      ]
    ]
