-- ===== src/Messaging/Bounded.antt =====
-- enforceQueueLimits drops the oldest pending messages of a peer until the queue fits, and no more.
use go_send.Base.{
  ℕ, select, ◌&&◌, ◌<◌, ◌≡◌, ◌∙◌, refl, ap, false, List, [], ◌∷◌, ◌++◌, map, ◌==◌, Text,
  if◌then◌else◌, is_empty, length, All, Bool-cases, inl, inr, arith,
}
use go_send.Base.Int.{ℤ, pos, ◌-ℤ◌}
use go_send.Storage.Messages.{
  is_pending, ltb_ℤ, failed, Message, done, prune_expired_queue, get_pending_messages,
  is_pending_for, is_expired, fail_expired,
}
use go_send.Storage.Marked.{with_status}
use go_send.Storage.Pending.{
  order_by_time-IsOrdered, Fresh, HasUniqueIds, queue, All-select, All-order_by_time,
}
use go_send.Messaging.Node.{Node, overflow}
use go_send.Messaging.Limits.{
  max_queue_age, report_dropped, total_bytes, finished, drop_oldest, enforce_queue_limits, enforced,
}
use go_send.Messaging.Trimmed.{HasId, IsTrimmed, drop_oldest-IsTrimmed}

Fresh-fail_expired :
    (i : Text) (cutoff : ℤ) (rows : List Message)
    → Fresh i rows
    → Fresh i (map (fail_expired cutoff) rows)
Fresh-fail_expired i cutoff [] h = tt
Fresh-fail_expired i cutoff (m ∷ rows) h = elim (Bool-cases (is_expired cutoff m)) [
  | inl e ↦ rw e (h.0, Fresh-fail_expired i cutoff rows h.1)
  | inr e ↦ rw e (h.0, Fresh-fail_expired i cutoff rows h.1)
]

-- The table's constraints: message IDs are unique and not empty.
pub record IsTable (rows : List Message) : Type 0 where
  pub unique : HasUniqueIds rows
  pub named : All HasId rows

fail_expired-HasUniqueIds :
    (cutoff : ℤ) (rows : List Message)
    → HasUniqueIds rows
    → HasUniqueIds (map (fail_expired cutoff) rows)
fail_expired-HasUniqueIds cutoff [] h = tt
fail_expired-HasUniqueIds cutoff (m ∷ rows) h =
    let ids = Fresh-fail_expired m.message_id cutoff rows h.0 in
    elim (Bool-cases (is_expired cutoff m)) [
      | inl e ↦ rw e (ids, fail_expired-HasUniqueIds cutoff rows h.1)
      | inr e ↦ rw e (ids, fail_expired-HasUniqueIds cutoff rows h.1)
    ]

fail_expired-named :
    (cutoff : ℤ) (rows : List Message) → All HasId rows → All HasId (map (fail_expired cutoff) rows)
fail_expired-named cutoff [] h = tt
fail_expired-named cutoff (m ∷ rows) h = elim (Bool-cases (is_expired cutoff m)) [
  | inl e ↦ rw e (h.0, fail_expired-named cutoff rows h.1)
  | inr e ↦ rw e (h.0, fail_expired-named cutoff rows h.1)
]

-- The rows after PruneExpiredQueue at this time.
abbrev pub pruned_at : ℕ → List Message → List Message
pruned_at now =
    with_status failed
      (λ m. is_pending m.delivery_status && ltb_ℤ m.timestamp_sent (pos now -ℤ pos 604_800_000))

prune_expired_queue-done :
    (now : ℕ) (rows : List Message)
    → max_queue_age < now
    → prune_expired_queue (pos now -ℤ pos max_queue_age) rows ≡ done (pruned_at now rows)
unfolding prune_expired_queue ◌-ℤ◌
prune_expired_queue-done now rows h = ground arith

-- The call, once its parts are known.
enforce_queue_limits-eq :
    (now : ℕ) (peer : Text) (node : Node) (rows out : List Message) (k : ℕ)
    → is_empty peer ≡ false
    → prune_expired_queue (pos now -ℤ pos max_queue_age) node.messages ≡ done rows
    → drop_oldest
        (queue peer rows)
        (length (queue peer rows))
        (total_bytes (queue peer rows))
        0
        rows
      ≡ finished out k
    → enforce_queue_limits now peer node
      ≡ enforced (report_dropped peer k (record node { messages = out }))
unfolding enforce_queue_limits get_pending_messages
enforce_queue_limits-eq now peer node rows out k n p d = rw (n, p, n, d)

report_dropped-messages :
    (peer : Text) (k : ℕ) (node : Node) → (report_dropped peer k node).messages ≡ node.messages
unfolding report_dropped
report_dropped-messages peer k node = ground arith

report_dropped-log :
    (peer : Text) (k : ℕ) (node : Node)
    → (report_dropped peer k node).log
      ≡ (if k == 0 then node.log else node.log ++ (overflow peer k ∷ []))
unfolding report_dropped
report_dropped-log peer k node = ground arith

-- For a named peer, once the clock is past the queue age, and for a table whose IDs are unique and
-- not empty, enforceQueueLimits succeeds: it does not index past the end and meets no storage error.
-- First the pending messages that are older than a week fail. Then of the peer's queue, oldest
-- first, the k first messages fail, where k is the least number that leaves at most 500 messages
-- and 50 MB; the rest of the queue is left in its order. No other row of the table changes. An
-- overflow is logged exactly if k > 0.
pub enforce_queue_limits-IsTrimmed :
    (now : ℕ) (peer : Text) (node : Node)
    → is_empty peer ≡ false
    → max_queue_age < now
    → IsTable node.messages
    → (node' : Node) × (k : ℕ) × (enforce_queue_limits now peer node ≡ enforced node')
      × (let rows = pruned_at now node.messages in
          IsTrimmed peer (queue peer rows) rows node'.messages k)
      × (node'.log ≡ (if k == 0 then node.log else node.log ++ (overflow peer k ∷ [])))
enforce_queue_limits-IsTrimmed now peer node n h t =
    let rows = pruned_at now node.messages in
    let cutoff = pos now -ℤ pos max_queue_age in
    let named = All-order_by_time HasId _ (
      All-select HasId (is_pending_for peer) rows
        (fail_expired-named cutoff node.messages t.named)) in
    let (k, out, eq, trimmed) =
      drop_oldest-IsTrimmed peer (queue peer rows) 0 rows
        (fail_expired-HasUniqueIds cutoff node.messages t.unique) named
        (order_by_time-IsOrdered (select (is_pending_for peer) rows)) refl in
    let node' = report_dropped peer k (record node { messages = out }) in
    let kept = report_dropped-messages peer k (record node { messages = out }) in
    (
      node',
      k,
      enforce_queue_limits-eq now peer node rows out k n
          (prune_expired_queue-done now node.messages h) (eq ∙ ap (finished out) (omega arith)),
      rw kept trimmed,
      report_dropped-log peer k (record node { messages = out }),
    )
