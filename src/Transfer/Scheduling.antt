-- ===== src/Transfer/Scheduling.antt =====
-- Which transfer startNextQueuedTransfer starts.
use go_send.Base.{
  ◌≡◌, true, false, List, [], ◌∷◌, Option, none, some, Text, if◌then◌else◌, is_empty, text_eq_refl,
  trim_space, All, Bool-cases, Option-cases, inl, inr, arith,
}
use mathlib.Core.Path.{subst}
use go_send.Base.Dict.{Dict, lookup, insert, lookup-insert_self, lookup-delete}
use go_send.Transfer.Node.{OutboundFileTransfer}
use go_send.Transfer.Queue.{
  TransferQueue, list_at, set_queue, finish_outbound_transfer, is_ended, start_queued,
  start_next_queued_transfer,
}

-- The first transfer of a queue that is there and not over, with what stands behind it.
unfoldable pub first_startable : Dict OutboundFileTransfer → List Text → Option (Text × List Text)
first_startable outbound [] = none
first_startable outbound (id ∷ rest) =
    let later = first_startable outbound rest in
    elim (lookup id outbound) [
      | none ↦ later
      | some t ↦ if is_ended t then later else some (id, rest)
    ]

lookup-set_queue :
    (peer : Text) (queue : List Text) (queues : Dict (List Text))
    → list_at (lookup peer (set_queue peer queue queues)) ≡ queue
unfolding set_queue
lookup-set_queue peer [] queues = ground (arith, lookup-delete peer peer queues, text_eq_refl peer)
lookup-set_queue peer (x ∷ xs) queues = ground (arith, lookup-insert_self peer (x ∷ xs) queues)

-- What is queued and active for the peer afterwards.
pub record IsScheduled (peer : Text) (next : Option (Text × List Text)) (q : TransferQueue)
    : Type 0 where
  pub active : lookup peer q.active ≡ elim next [ none ↦ none | some (id, rest) ↦ some id ]
  pub queued : list_at (lookup peer q.queues) ≡ elim next [ none ↦ [] | some (id, rest) ↦ rest ]

-- Finishing the transfer that was just taken frees the peer.
finish-taken :
    (peer id : Text) (rest : List Text) (q : TransferQueue)
    → is_empty peer ≡ false
    → is_empty id ≡ false
    → let q' =
        finish_outbound_transfer peer id
          (record q { queues = set_queue peer rest q.queues; active = insert peer id q.active }) in
      (lookup peer q'.active ≡ none) × (q'.outbound ≡ q.outbound)
unfolding finish_outbound_transfer
finish-taken peer id rest q h k =
    let found = lookup-insert_self peer id q.active in
    let gone = lookup-delete peer peer (insert peer id q.active) in
    (
      ground (arith, h, k, found, gone, text_eq_refl id, text_eq_refl peer),
      ground (arith, h, k, found, text_eq_refl id),
    )

start_queued-IsScheduled :
    (peer : Text) (queue : List Text) (q : TransferQueue)
    → is_empty peer ≡ false
    → All (λ id. is_empty id ≡ false) queue
    → lookup peer q.active ≡ none
    → IsScheduled peer (first_startable q.outbound queue) (start_queued peer queue q)
unfolding start_queued first_startable
start_queued-IsScheduled peer [] q named ids h = record {
  active = h;
  queued = ground (arith, lookup-delete peer peer q.queues, text_eq_refl peer);
}
start_queued-IsScheduled peer (id ∷ rest) q named (i, is) h =
    let taken = record q {
      queues = set_queue peer rest q.queues;
      active = insert peer id q.active;
    } in
    let done = finish-taken peer id rest q named i in
    let later =
      start_queued-IsScheduled peer rest (finish_outbound_transfer peer id taken) named is done.0 in
    let later' =
      subst
        (λ x.
          IsScheduled peer (first_startable x rest)
            (start_queued peer rest (finish_outbound_transfer peer id taken)))
        done.1 later in
    elim (Option-cases (lookup id q.outbound)) [
      | inl e ↦ rw (start_queued, first_startable, e) later'
      | inr (t, e) ↦ elim (Bool-cases (is_ended t)) [
        | inl o ↦ rw (start_queued, first_startable, e, o) later'
        | inr o ↦
            rw (start_queued, first_startable, e, o)
              (record {
                active = ground (arith, lookup-insert_self peer id q.active);
                queued = ground (arith, lookup-set_queue peer rest q.queues);
              })
      ]
    ]

-- When no transfer to a connected peer is active, startNextQueuedTransfer makes the first transfer of
-- its queue active that is there and neither done, rejected nor canceled; what stands behind it stays
-- queued, and what stands before it is dropped. If there is none, nothing is active and the queue is
-- empty.
pub start_next_queued_transfer-IsScheduled :
    (peer : Text) (q : TransferQueue)
    → is_empty (trim_space peer) ≡ false
    → is_empty peer ≡ false
    → All (λ id. is_empty id ≡ false) (list_at (lookup peer q.queues))
    → lookup peer q.active ≡ none
    → IsScheduled peer
        (first_startable q.outbound (list_at (lookup peer q.queues)))
        (start_next_queued_transfer true peer q)
unfolding start_next_queued_transfer
start_next_queued_transfer-IsScheduled peer q trimmed named ids h =
    rw (start_next_queued_transfer, trimmed, h)
      (start_queued-IsScheduled peer (list_at (lookup peer q.queues)) q named ids h)
