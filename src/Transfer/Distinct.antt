-- ===== src/Transfer/Distinct.antt =====
-- The queue of a peer never holds an ID twice.
use go_send.Base.{
  ◌≡◌, refl, Bool, true, false, not, ◌||◌, List, [], ◌∷◌, ◌++◌, Text, if◌then◌else◌, text_eq,
  text_eq_iff, text_eq_refl, select, Bool-cases, Option-cases, inl, inr, arith,
}
use go_send.Base.Dict.{Dict, lookup, insert, lookup-insert, lookup-delete}
use go_send.Transfer.Node.{OutboundFileTransfer}
use go_send.Transfer.Queue.{
  TransferQueue, list_at, contains, set_queue, enqueue_outbound_transfer,
  remove_queued_outbound_transfer, finish_outbound_transfer, is_ended, begin_outbound_file_transfer,
  start_queued, start_next_queued_transfer,
}

-- No ID occurs twice.
abbrev pub distinct : List Text → Bool
distinct [] = true
distinct (x ∷ xs) = let rest = distinct xs in if contains x xs then false else rest

contains-append :
    (id x : Text) (xs : List Text) → contains id (xs ++ (x ∷ [])) ≡ (contains id xs || text_eq x id)
contains-append id x [] = ground arith
contains-append id x (y ∷ ys) = ground (arith, contains-append id x ys)

distinct-append :
    (x : Text) (xs : List Text)
    → contains x xs ≡ false
    → distinct xs ≡ true
    → distinct (xs ++ (x ∷ [])) ≡ true
distinct-append x [] h k = refl
distinct-append x (y ∷ ys) h k = ground (
  arith,
  h,
  k,
  contains-append y x ys,
  distinct-append x ys,
  text_eq_iff y x,
  text_eq_iff x y,
  text_eq_refl x,
)

contains-select :
    (id : Text) (p : Text → Bool) (xs : List Text)
    → contains id xs ≡ false
    → contains id (select p xs) ≡ false
contains-select id p [] h = refl
contains-select id p (x ∷ xs) h = ground (arith, h, contains-select id p xs)

distinct-select :
    (p : Text → Bool) (xs : List Text) → distinct xs ≡ true → distinct (select p xs) ≡ true
distinct-select p [] h = refl
distinct-select p (x ∷ xs) h = ground (arith, h, distinct-select p xs, contains-select x p xs)

lookup-set_queue_at :
    (peer j : Text) (queue : List Text) (queues : Dict (List Text))
    → list_at (lookup j (set_queue peer queue queues))
      ≡ (if text_eq peer j then queue else list_at (lookup j queues))
unfolding set_queue
lookup-set_queue_at peer j [] queues =
    ground (arith, lookup-delete peer j queues, text_eq_iff peer j, text_eq_iff j peer)
lookup-set_queue_at peer j (x ∷ xs) queues = ground (arith, lookup-insert peer j (x ∷ xs) queues)

-- Every queue is free of repetitions.
pub record HasDistinctQueues (q : TransferQueue) : Type 0 where
  pub at : (peer : Text) → distinct (list_at (lookup peer q.queues)) ≡ true

enqueue-HasDistinctQueues :
    (peer id : Text) (front : Bool) (q : TransferQueue)
    → HasDistinctQueues q
    → HasDistinctQueues (enqueue_outbound_transfer peer id front q)
unfolding enqueue_outbound_transfer
enqueue-HasDistinctQueues peer id front q h =
    let queue = list_at (lookup peer q.queues) in
    record {
      at = λ j. ground (
        arith,
        h.at peer,
        h.at j,
        distinct-append id queue,
        lookup-insert peer j (id ∷ queue) q.queues,
        lookup-insert peer j (queue ++ (id ∷ [])) q.queues,
      );
    }

remove-HasDistinctQueues :
    (peer id : Text) (q : TransferQueue)
    → HasDistinctQueues q
    → HasDistinctQueues (remove_queued_outbound_transfer peer id q).0
unfolding remove_queued_outbound_transfer
remove-HasDistinctQueues peer id q h =
    let queue = list_at (lookup peer q.queues) in
    let left = select (λ x. not (text_eq x id)) queue in
    record {
      at = λ j. ground (
        arith,
        h.at peer,
        h.at j,
        distinct-select (λ x. not (text_eq x id)) queue,
        lookup-set_queue_at peer j left q.queues,
      );
    }

finish-HasDistinctQueues :
    (peer id : Text) (q : TransferQueue)
    → HasDistinctQueues q
    → HasDistinctQueues (finish_outbound_transfer peer id q)
unfolding finish_outbound_transfer
finish-HasDistinctQueues peer id q h = record { at = λ j. ground (arith, h.at j) }

begin-HasDistinctQueues :
    (id : Text) (t : OutboundFileTransfer) (q : TransferQueue)
    → HasDistinctQueues q
    → HasDistinctQueues (begin_outbound_file_transfer id t q)
unfolding begin_outbound_file_transfer
begin-HasDistinctQueues id t q h = record { at = λ j. ground (arith, h.at j) }

take-HasDistinctQueues :
    (peer id : Text) (rest : List Text) (q : TransferQueue)
    → distinct rest ≡ true
    → HasDistinctQueues q
    → HasDistinctQueues
        (record q { queues = set_queue peer rest q.queues; active = insert peer id q.active })
take-HasDistinctQueues peer id rest q d h = record {
  at = λ j. ground (arith, d, h.at j, lookup-set_queue_at peer j rest q.queues);
}

start_queued-HasDistinctQueues :
    (peer : Text) (queue : List Text) (q : TransferQueue)
    → distinct queue ≡ true
    → HasDistinctQueues q
    → HasDistinctQueues (start_queued peer queue q)
unfolding start_queued
start_queued-HasDistinctQueues peer [] q d h = record {
  at = λ j. ground (arith, h.at j, lookup-delete peer j q.queues);
}
start_queued-HasDistinctQueues peer (id ∷ rest) q d h =
    let taken = record q {
      queues = set_queue peer rest q.queues;
      active = insert peer id q.active;
    } in
    let d' : distinct rest ≡ true = ground (arith, d) in
    let held = take-HasDistinctQueues peer id rest q d' h in
    let next =
      start_queued-HasDistinctQueues peer rest (finish_outbound_transfer peer id taken) d'
        (finish-HasDistinctQueues peer id taken held) in
    elim (Option-cases (lookup id q.outbound)) [
      | inl e ↦ rw (start_queued, e) next
      | inr (t, e) ↦ elim (Bool-cases (is_ended t)) [
        | inl o ↦ rw (start_queued, e, o) next
        | inr o ↦ record {
          at = λ j. ground (arith, e, o, (begin-HasDistinctQueues id t taken held).at j);
        }
      ]
    ]

-- The operations on the queues, in any order, and what happens to a transfer in between.
pub data Scheduled : TransferQueue → Type 0 where
  fresh :
      (outbound : Dict OutboundFileTransfer)
      → Scheduled (record { queues = []; active = []; outbound = outbound; begun = [] })
  changed :
      (outbound : Dict OutboundFileTransfer) (q : TransferQueue)
      → Scheduled q
      → Scheduled (record q { outbound = outbound })
  enqueued :
      (peer id : Text) (front : Bool) (q : TransferQueue)
      → Scheduled q
      → Scheduled (enqueue_outbound_transfer peer id front q)
  removed :
      (peer id : Text) (q : TransferQueue)
      → Scheduled q
      → Scheduled (remove_queued_outbound_transfer peer id q).0
  finished :
      (peer id : Text) (q : TransferQueue)
      → Scheduled q
      → Scheduled (finish_outbound_transfer peer id q)
  started :
      (connected : Bool) (peer : Text) (q : TransferQueue)
      → Scheduled q
      → Scheduled (start_next_queued_transfer connected peer q)

-- However the queues are changed, starting from none and with any changes of the transfers
-- themselves in between, no peer's queue holds an ID twice.
pub Scheduled-HasDistinctQueues : (q : TransferQueue) → Scheduled q → HasDistinctQueues q
unfolding start_next_queued_transfer lookup
Scheduled-HasDistinctQueues _ (fresh outbound) = record { at = λ j. refl }
Scheduled-HasDistinctQueues _ (changed outbound q s) = record {
  at = (Scheduled-HasDistinctQueues q s).at;
}
Scheduled-HasDistinctQueues _ (enqueued peer id front q s) =
    enqueue-HasDistinctQueues peer id front q (Scheduled-HasDistinctQueues q s)
Scheduled-HasDistinctQueues _ (removed peer id q s) =
    remove-HasDistinctQueues peer id q (Scheduled-HasDistinctQueues q s)
Scheduled-HasDistinctQueues _ (finished peer id q s) =
    finish-HasDistinctQueues peer id q (Scheduled-HasDistinctQueues q s)
Scheduled-HasDistinctQueues _ (started connected peer q s) =
    let h = Scheduled-HasDistinctQueues q s in
    let next =
      start_queued-HasDistinctQueues peer (list_at (lookup peer q.queues)) q (h.at peer) h in
    record { at = λ j. ground (arith, h.at j, next.at j) }
