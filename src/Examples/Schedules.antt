-- ===== src/Examples/Schedules.antt =====
-- The queue of outbound transfers at concrete inputs.
use go_send.Base.{
  ◌≡◌, refl, true, false, trim_space, Text, [], ◌∷◌, none, some, codes, text_eq, is_empty, All,
}
use go_send.Base.Dict.{Dict, lookup}
use go_send.Transfer.Node.{OutboundFileTransfer}
use go_send.Transfer.Queue.{
  TransferQueue, list_at, enqueue_outbound_transfer, start_next_queued_transfer,
}
use go_send.Transfer.Scheduling.{
  first_startable, IsScheduled, start_next_queued_transfer-IsScheduled,
}
use go_send.Transfer.Distinct.{
  HasDistinctQueues, fresh, enqueued, started, Scheduled-HasDistinctQueues,
}
use go_send.Examples.Files.{outgoing}

-- Two transfers to bob, of which the first is over.
abbrev two_outgoing : Dict OutboundFileTransfer
two_outgoing =
    (codes "f0", record outgoing { done = true })
    ∷ (codes "f1", record outgoing { running = false })
    ∷ []

abbrev queued_transfers : TransferQueue
queued_transfers = record {
  queues = (codes "bob", codes "f0" ∷ codes "f1" ∷ codes "f2" ∷ []) ∷ [];
  active = [];
  outbound = two_outgoing;
  begun = [];
}

scheduled_transfer :
    first_startable two_outgoing (codes "f0" ∷ codes "f1" ∷ codes "f2" ∷ [])
    ≡ some (codes "f1", codes "f2" ∷ [])
unfolding first_startable lookup text_eq
scheduled_transfer = refl

bob_named : is_empty (trim_space (codes "bob")) ≡ false
unfolding trim_space
bob_named = refl

bob_ids :
    All
      (λ (id : Text). is_empty id ≡ false)
      (list_at (lookup (codes "bob") queued_transfers.queues))
unfolding lookup text_eq
bob_ids = (refl, (refl, (refl, tt)))

bob_idle : lookup (codes "bob") queued_transfers.active ≡ none
unfolding lookup
bob_idle = refl

start_next_queued_transfer-IsScheduled_example :
    IsScheduled
      (codes "bob")
      (first_startable two_outgoing (list_at (lookup (codes "bob") queued_transfers.queues)))
      (start_next_queued_transfer true (codes "bob") queued_transfers)
start_next_queued_transfer-IsScheduled_example =
    start_next_queued_transfer-IsScheduled (codes "bob") queued_transfers bob_named refl bob_ids
      bob_idle

abbrev no_transfers : TransferQueue
no_transfers = record { queues = []; active = []; outbound = two_outgoing; begun = [] }

abbrev once_queued : TransferQueue
once_queued = enqueue_outbound_transfer (codes "bob") (codes "f1") false no_transfers

abbrev twice_queued : TransferQueue
twice_queued = enqueue_outbound_transfer (codes "bob") (codes "f1") true once_queued

Scheduled-HasDistinctQueues_example :
    HasDistinctQueues (start_next_queued_transfer true (codes "bob") twice_queued)
Scheduled-HasDistinctQueues_example =
    Scheduled-HasDistinctQueues (start_next_queued_transfer true (codes "bob") twice_queued) (
      started true (codes "bob") twice_queued (
        enqueued (codes "bob") (codes "f1") true once_queued
          (enqueued (codes "bob") (codes "f1") false no_transfers (fresh two_outgoing))))
