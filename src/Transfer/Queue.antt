-- ===== src/Transfer/Queue.antt =====
-- network/file_transfer.go: the queue of outbound transfers of each peer, of which one at a time is
-- active. An operation is one step, as the lock of the queue makes it.
use go_send.Base.{
  Bool, true, false, not, ◌||◌, List, [], ◌∷◌, ◌++◌, Option, none, some, Text, if◌then◌else◌,
  is_empty, text_eq, trim_space, select,
}
use go_send.Base.Dict.{Dict, lookup, insert, delete}
use go_send.Transfer.Node.{OutboundFileTransfer}

-- outboundTransferQueue, activeOutboundTransfer and outboundFileTransfers, with the IDs of the
-- transfers whose goroutine was started, newest last.
pub record TransferQueue : Type 0 where
  pub queues : Dict (List Text)
  pub active : Dict Text
  pub outbound : Dict OutboundFileTransfer
  pub begun : List Text

-- `m[k]` of a map whose zero value is empty.
abbrev pub list_at {ℓ} : {A : Type ℓ} → Option (List A) → List A
list_at none = []
list_at (some xs) = xs

abbrev pub contains : Text → List Text → Bool
contains id [] = false
contains id (x ∷ xs) = let rest = contains id xs in if text_eq x id then true else rest

-- The queue of a peer after a change: no entry is kept for an empty queue.
unfoldable pub set_queue : Text → List Text → Dict (List Text) → Dict (List Text)
set_queue peer [] queues = delete peer queues
set_queue peer (x ∷ xs) queues = insert peer (x ∷ xs) queues

-- enqueueOutboundTransfer.
unfoldable pub enqueue_outbound_transfer : Text → Text → Bool → TransferQueue → TransferQueue
enqueue_outbound_transfer peer id front q =
    if is_empty (trim_space peer) || is_empty (trim_space id)
    then q
    else (let queue = list_at (lookup peer q.queues) in
        if contains id queue then q else record q {
          queues = insert peer (if front then id ∷ queue else queue ++ (id ∷ [])) q.queues;
        })

-- removeQueuedOutboundTransfer, with whether it removed the ID.
unfoldable pub remove_queued_outbound_transfer : Text → Text → TransferQueue → TransferQueue × Bool
unfolding set_queue
remove_queued_outbound_transfer peer id q =
    if is_empty (trim_space peer) || is_empty (trim_space id)
    then (q, false)
    else (let queue = list_at (lookup peer q.queues) in
        if is_empty queue then (q, false) else (
          record q { queues = set_queue peer (select (λ x. not (text_eq x id)) queue) q.queues },
          contains id queue,
        ))

-- finishOutboundTransfer.
unfoldable pub finish_outbound_transfer : Text → Text → TransferQueue → TransferQueue
finish_outbound_transfer peer id q =
    if is_empty peer || is_empty id
    then q
    else if text_eq (list_at (lookup peer q.active)) id
    then record q { active = delete peer q.active }
    else q

-- `Done || Rejected || Canceled`.
abbrev pub is_ended : OutboundFileTransfer → Bool
is_ended t = t.done || t.rejected || t.canceled

-- beginOutboundFileTransfer up to its goroutine.
unfoldable pub begin_outbound_file_transfer :
    Text → OutboundFileTransfer → TransferQueue → TransferQueue
begin_outbound_file_transfer id t q = if t.running || is_ended t then q else record q {
  outbound = insert id (record t { running = true }) q.outbound;
  begun = q.begun ++ (id ∷ []);
}

-- The loop of startNextQueuedTransfer, over the queue of the peer.
unfoldable pub start_queued : Text → List Text → TransferQueue → TransferQueue
unfolding set_queue finish_outbound_transfer begin_outbound_file_transfer
start_queued peer [] q = record q { queues = delete peer q.queues }
start_queued peer (id ∷ rest) q =
    let taken = record q {
      queues = set_queue peer rest q.queues;
      active = insert peer id q.active;
    } in
    let next = start_queued peer rest (finish_outbound_transfer peer id taken) in
    elim (lookup id q.outbound) [
      | none ↦ next
      | some t ↦ if is_ended t then next else begin_outbound_file_transfer id t taken
    ]

-- startNextQueuedTransfer; `connected` tells whether the peer has a live connection.
unfoldable pub start_next_queued_transfer : Bool → Text → TransferQueue → TransferQueue
unfolding start_queued
start_next_queued_transfer connected peer q =
    if is_empty (trim_space peer)
    then q
    else if not connected
    then q
    else if not (is_empty (list_at (lookup peer q.active)))
    then q
    else start_queued peer (list_at (lookup peer q.queues)) q
