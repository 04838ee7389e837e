-- ===== src/Storage/Pending.antt =====
-- The pending queue of a peer: its order, and what a change of one status does to it.
use mathlib.Core.Path.{◌≡⟨◌⟩◌, ◌∎}
use go_send.Base.{
  none, ◌≡◌, refl, ap, Bool, false, not, List, [], ◌∷◌, Text, if◌then◌else◌, text_eq, text_eq_iff,
  text_eq_refl, select, All, Bool-cases, inl, inr, arith, sym,
}
use go_send.Storage.Messages.{
  DeliveryStatus, failed, Message, is_pending_for, ltb_ℤ, insert_by_time, order_by_time, set_status,
  find_message,
}

-- No message of the list was sent before m.
abbrev pub NoneBefore : Message → List Message → Type 0
NoneBefore m = All (λ n. ltb_ℤ n.timestamp_sent m.timestamp_sent ≡ false)

-- Oldest first.
abbrev pub IsOrdered : List Message → Type 0
IsOrdered [] = Unit {0}
IsOrdered (m ∷ rows) = NoneBefore m rows × IsOrdered rows

-- No message of the list has this ID.
abbrev pub Fresh : Text → List Message → Type 0
Fresh id = All (λ n. text_eq n.message_id id ≡ false)

-- Message IDs are a primary key.
abbrev pub HasUniqueIds : List Message → Type 0
HasUniqueIds [] = Unit {0}
HasUniqueIds (m ∷ rows) = Fresh m.message_id rows × HasUniqueIds rows

module _ {ℓ κ} {A : Type ℓ} where
  pub All-select : (P : A → Type κ) (p : A → Bool) (xs : List A) → All P xs → All P (select p xs)
  All-select P p [] h = h
  All-select P p (x ∷ xs) h = elim (Bool-cases (p x)) [
    | inl e ↦ rw e (h.0, All-select P p xs h.1)
    | inr e ↦ rw e (All-select P p xs h.1)
  ]

All-insert_by_time :
    (P : Message → Type 0) (m : Message) (rows : List Message)
    → P m
    → All P rows
    → All P (insert_by_time m rows)
unfolding insert_by_time
All-insert_by_time P m [] h k = (h, tt)
All-insert_by_time P m (n ∷ rows) h k =
    elim (Bool-cases (ltb_ℤ n.timestamp_sent m.timestamp_sent)) [
      | inl e ↦ rw e (k.0, All-insert_by_time P m rows h k.1)
      | inr e ↦ rw e (h, k)
    ]

NoneBefore-trans :
    (m n : Message) (rows : List Message)
    → ltb_ℤ n.timestamp_sent m.timestamp_sent ≡ false
    → NoneBefore n rows
    → NoneBefore m rows
NoneBefore-trans m n [] h k = tt
NoneBefore-trans m n (x ∷ rows) h k = (ground arith, NoneBefore-trans m n rows h k.1)

insert_by_time-IsOrdered :
    (m : Message) (rows : List Message) → IsOrdered rows → IsOrdered (insert_by_time m rows)
unfolding insert_by_time
insert_by_time-IsOrdered m [] h = (tt, tt)
insert_by_time-IsOrdered m (n ∷ rows) h =
    elim (Bool-cases (ltb_ℤ n.timestamp_sent m.timestamp_sent)) [
      | inl e ↦
          rw e (All-insert_by_time _ m rows (ground arith) h.0, insert_by_time-IsOrdered m rows h.1)
      | inr e ↦ rw e ((e, NoneBefore-trans m n rows e h.0), h)
    ]

pub order_by_time-IsOrdered : (rows : List Message) → IsOrdered (order_by_time rows)
unfolding order_by_time
order_by_time-IsOrdered [] = tt
order_by_time-IsOrdered (m ∷ rows) =
    insert_by_time-IsOrdered m (order_by_time rows) (order_by_time-IsOrdered rows)

insert_by_time_first :
    (m : Message) (rows : List Message) → NoneBefore m rows → insert_by_time m rows ≡ m ∷ rows
unfolding insert_by_time
insert_by_time_first m [] h = refl
insert_by_time_first m (n ∷ rows) h = rw h.0

select-insert_by_time :
    (p : Message → Bool) (m : Message) (rows : List Message)
    → IsOrdered rows
    → select p (insert_by_time m rows)
      ≡ (if p m then insert_by_time m (select p rows) else select p rows)
unfolding insert_by_time
select-insert_by_time p m [] h = ground arith
select-insert_by_time p m (n ∷ rows) h =
    elim (Bool-cases (ltb_ℤ n.timestamp_sent m.timestamp_sent)) [
      | inl e ↦ ground (arith, select-insert_by_time p m rows h.1)
      | inr e ↦
          let all : NoneBefore m (n ∷ rows) = (e, NoneBefore-trans m n rows e h.0) in
          ground
            (arith, e, insert_by_time_first m (select p (n ∷ rows)) (All-select _ p (n ∷ rows) all))
    ]

-- To choose rows before or after ordering them is the same.
pub select-order_by_time :
    (p : Message → Bool) (rows : List Message)
    → select p (order_by_time rows) ≡ order_by_time (select p rows)
unfolding order_by_time
select-order_by_time p [] = refl
select-order_by_time p (m ∷ rows) = ground (
  arith,
  select-insert_by_time p m (order_by_time rows) (order_by_time-IsOrdered rows),
  select-order_by_time p rows,
)

-- The rows without one message.
abbrev pub without : Text → List Message → List Message
without id = select (λ m. not (text_eq m.message_id id))

without-Fresh : (id : Text) (rows : List Message) → Fresh id rows → without id rows ≡ rows
without-Fresh id [] h = refl
without-Fresh id (m ∷ rows) h = ground (arith, h.0, without-Fresh id rows h.1)

-- A message that fails leaves the queue.
select-set_status :
    (peer id : Text) (rows : List Message)
    → select (is_pending_for peer) (set_status id failed rows)
      ≡ without id (select (is_pending_for peer) rows)
unfolding set_status
select-set_status peer id [] = refl
select-set_status peer id (m ∷ rows) = ground (arith, select-set_status peer id rows)

Fresh-symm :
    (m n : Message)
    → text_eq n.message_id m.message_id ≡ false
    → text_eq m.message_id n.message_id ≡ false
Fresh-symm m n h =
    ground (arith, text_eq_iff n.message_id m.message_id, text_eq_iff m.message_id n.message_id)

insert_by_time-HasUniqueIds :
    (m : Message) (rows : List Message)
    → Fresh m.message_id rows
    → HasUniqueIds rows
    → HasUniqueIds (insert_by_time m rows)
unfolding insert_by_time
insert_by_time-HasUniqueIds m [] f h = (tt, tt)
insert_by_time-HasUniqueIds m (n ∷ rows) f h =
    elim (Bool-cases (ltb_ℤ n.timestamp_sent m.timestamp_sent)) [
      | inl e ↦ rw e (
        All-insert_by_time _ m rows (Fresh-symm m n f.0) h.0,
        insert_by_time-HasUniqueIds m rows f.1 h.1,
      )
      | inr e ↦ rw e (f, h)
    ]

pub All-order_by_time :
    (P : Message → Type 0) (rows : List Message) → All P rows → All P (order_by_time rows)
unfolding order_by_time
All-order_by_time P [] h = tt
All-order_by_time P (m ∷ rows) h =
    All-insert_by_time P m (order_by_time rows) h.0 (All-order_by_time P rows h.1)

order_by_time-HasUniqueIds :
    (rows : List Message) → HasUniqueIds rows → HasUniqueIds (order_by_time rows)
unfolding order_by_time
order_by_time-HasUniqueIds [] h = tt
order_by_time-HasUniqueIds (m ∷ rows) h =
    insert_by_time-HasUniqueIds m (order_by_time rows) (All-order_by_time _ rows h.0)
      (order_by_time-HasUniqueIds rows h.1)

select-HasUniqueIds :
    (p : Message → Bool) (rows : List Message) → HasUniqueIds rows → HasUniqueIds (select p rows)
select-HasUniqueIds p [] h = tt
select-HasUniqueIds p (m ∷ rows) h = elim (Bool-cases (p m)) [
  | inl e ↦ rw e (All-select _ p rows h.0, select-HasUniqueIds p rows h.1)
  | inr e ↦ rw e (select-HasUniqueIds p rows h.1)
]

-- The pending queue of a peer.
abbrev pub queue : Text → List Message → List Message
queue peer rows = order_by_time (select (is_pending_for peer) rows)

pub queue-HasUniqueIds :
    (peer : Text) (rows : List Message) → HasUniqueIds rows → HasUniqueIds (queue peer rows)
queue-HasUniqueIds peer rows h =
    order_by_time-HasUniqueIds (select (is_pending_for peer) rows)
      (select-HasUniqueIds (is_pending_for peer) rows h)

-- Failing the oldest message of a queue removes it and leaves the rest in place.
pub queue-set_status :
    (peer : Text) (rows : List Message) (oldest : Message) (rest : List Message)
    → HasUniqueIds rows
    → queue peer rows ≡ oldest ∷ rest
    → queue peer (set_status oldest.message_id failed rows) ≡ rest
queue-set_status peer rows oldest rest h e =
    let id = oldest.message_id in
    let chosen = select (is_pending_for peer) rows in
    let fresh : HasUniqueIds (oldest ∷ rest) = rw e at (queue-HasUniqueIds peer rows h) in
    queue peer (set_status id failed rows)
    ≡⟨ ap order_by_time (select-set_status peer id rows) ⟩ order_by_time (without id chosen)
    ≡⟨ sym (select-order_by_time (λ m. not (text_eq m.message_id id)) chosen) ⟩
      without id (queue peer rows)
    ≡⟨ ap (without id) e ⟩ without id (oldest ∷ rest)
    ≡⟨ ground (arith, text_eq_refl id, without-Fresh id rest fresh.0) ⟩ rest ∎

Fresh-set_status :
    (i id : Text) (s : DeliveryStatus) (rows : List Message)
    → Fresh i rows
    → Fresh i (set_status id s rows)
unfolding set_status
Fresh-set_status i id s [] h = tt
Fresh-set_status i id s (m ∷ rows) h = (ground (arith, h.0), Fresh-set_status i id s rows h.1)

-- A change of status keeps the IDs unique.
pub set_status-HasUniqueIds :
    (id : Text) (s : DeliveryStatus) (rows : List Message)
    → HasUniqueIds rows
    → HasUniqueIds (set_status id s rows)
unfolding set_status
set_status-HasUniqueIds id s [] h = tt
set_status-HasUniqueIds id s (m ∷ rows) h =
    let ids = Fresh-set_status m.message_id id s rows h.0 in
    elim (Bool-cases (text_eq m.message_id id)) [
      | inl e ↦ rw e (ids, set_status-HasUniqueIds id s rows h.1)
      | inr e ↦ rw e (ids, set_status-HasUniqueIds id s rows h.1)
    ]

-- An ID that is not in the table changes nothing.
pub set_status-absent :
    (id : Text) (s : DeliveryStatus) (rows : List Message)
    → find_message id rows ≡ none
    → set_status id s rows ≡ rows
unfolding set_status find_message
set_status-absent id s [] h = refl
set_status-absent id s (m ∷ rows) h = ground (arith, set_status-absent id s rows)
