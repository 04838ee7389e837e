-- ===== src/Messaging/Trimmed.antt =====
-- The loop of enforceQueueLimits: what it drops and what it leaves.
use go_send.Base.{
  ℕ, zero, suc, Bool, sym, take, ltb, ◌||◌, text_eq, ◌+◌, ◌-◌, ◌<◌, ◌≡◌, ◌⊎◌, ◌∙◌, refl, ap, true,
  false, List, [], ◌∷◌, Text, is_empty, length, drop, All, Bool-cases, Option-cases, inl, inr,
  arith,
}
use go_send.Storage.Messages.{
  failed, Message, done, refused, not_found, update_delivery_status, find_message, set_status,
}
use go_send.Storage.Marked.{with_status-none, with_status}
use go_send.Storage.Pending.{
  IsOrdered, HasUniqueIds, queue, queue-set_status, set_status-HasUniqueIds, set_status-absent,
}
use go_send.Messaging.Limits.{total_bytes, is_over, finished, drop_oldest}

abbrev pub HasId : Message → Type 0
HasId m = is_empty m.message_id ≡ false

-- The bytes of the contents of a queue.
abbrev pub content_bytes : List Message → ℕ
content_bytes [] = 0
content_bytes (m ∷ q) = length m.content + content_bytes q

-- More than 500 messages or more than 50 MB.
abbrev pub exceeds : List Message → Bool
exceeds q = ltb 500 (length q) || ltb 52_428_800 (content_bytes q)

-- Whether a message has the ID of one of these.
abbrev pub is_among : List Message → Message → Bool
is_among [] m = false
is_among (o ∷ q) m = text_eq m.message_id o.message_id || is_among q m

-- `rows'` is the table `rows` after the `k` oldest messages of the queue `q` were dropped: exactly
-- these have failed, and every other row is as it was. What is left is the rest of the queue in its
-- order, oldest first, it is within both limits, and with one message fewer dropped it would not be.
pub record IsTrimmed (peer : Text) (q rows rows' : List Message) (k : ℕ) : Type 0 where
  pub dropped : rows' ≡ with_status failed (is_among (take k q)) rows
  pub oldest_first : IsOrdered q
  pub left : queue peer rows' ≡ drop k q
  pub within : exceeds (drop k q) ≡ false
  pub needed : (j : ℕ) → j < k → exceeds (drop j q) ≡ true
  pub ids : HasUniqueIds rows'

total_bytes-content_bytes : (q : List Message) → total_bytes q ≡ content_bytes q
unfolding total_bytes
total_bytes-content_bytes [] = refl
total_bytes-content_bytes (m ∷ q) = ap (λ n. length m.content + n) (total_bytes-content_bytes q)

-- The test of the loop.
is_over-exceeds : (q : List Message) → is_over (length q) (total_bytes q) ≡ exceeds q
is_over-exceeds q = rw (total_bytes-content_bytes q) refl

-- To fail one message and then others is to fail them all.
with_status-among :
    (o : Message) (q rows : List Message)
    → with_status failed (is_among q) (set_status o.message_id failed rows)
      ≡ with_status failed (is_among (o ∷ q)) rows
unfolding set_status
with_status-among o q [] = refl
with_status-among o q (m ∷ rows) = ground (arith, with_status-among o q rows)

-- The call of UpdateDeliveryStatus in the loop: the rows after it.
update_failed :
    (id : Text) (rows : List Message)
    → is_empty id ≡ false
    → (update_delivery_status id failed rows ≡ done (set_status id failed rows))
      ⊎ ((update_delivery_status id failed rows ≡ refused not_found)
          × (set_status id failed rows ≡ rows))
unfolding update_delivery_status
update_failed id rows h = elim (Option-cases (find_message id rows)) [
  | inl e ↦ inr (ground (arith, e), set_status-absent id failed rows e)
  | inr (m, e) ↦ inl (ground (arith, e))
]

-- One round of the loop.
drop_oldest-step :
    (o : Message) (rest : List Message) (dropped : ℕ) (rows : List Message)
    → HasId o
    → is_over (length (o ∷ rest)) (total_bytes (o ∷ rest)) ≡ true
    → drop_oldest (o ∷ rest) (length (o ∷ rest)) (total_bytes (o ∷ rest)) dropped rows
      ≡ drop_oldest rest
          (length rest)
          (total_bytes rest)
          (dropped + 1)
          (set_status o.message_id failed rows)
unfolding drop_oldest total_bytes
drop_oldest-step o rest dropped rows h over =
    let count : suc (length rest) - 1 ≡ length rest = omega arith in
    let bytes : length o.content + total_bytes rest - length o.content ≡ total_bytes rest =
      omega arith in
    elim (update_failed o.message_id rows h) [
      | inl e ↦ ground (arith, over, e, count, bytes)
      | inr (e, same) ↦ ground (arith, over, e, same, count, bytes)
    ]

drop_oldest-stop :
    (q : List Message) (dropped : ℕ) (rows : List Message)
    → is_over (length q) (total_bytes q) ≡ false
    → drop_oldest q (length q) (total_bytes q) dropped rows ≡ finished rows dropped
unfolding drop_oldest
drop_oldest-stop [] dropped rows h = rw h
drop_oldest-stop (o ∷ rest) dropped rows h = rw h

needed-suc :
    (o : Message) (rest : List Message) (k : ℕ)
    → exceeds (o ∷ rest) ≡ true
    → ((j : ℕ) → j < k → exceeds (drop j rest) ≡ true)
    → (j : ℕ) → j < suc k
    → exceeds (drop j (o ∷ rest)) ≡ true
needed-suc o rest k over h zero l = over
needed-suc o rest k over h (suc j) l = h j (omega arith)

-- Nothing is dropped from a queue that fits.
IsTrimmed-none :
    (peer : Text) (q rows : List Message)
    → HasUniqueIds rows
    → queue peer rows ≡ q
    → IsOrdered q
    → exceeds q ≡ false
    → IsTrimmed peer q rows rows 0
IsTrimmed-none peer q rows u e o fits = record {
  dropped = sym (with_status-none failed rows);
  oldest_first = o;
  left = e;
  within = fits;
  needed = λ j l. elim l [ ];
  ids = u;
}

-- The loop ends, never reads past the end of the queue, and trims it.
pub drop_oldest-IsTrimmed :
    (peer : Text) (q : List Message) (dropped : ℕ) (rows : List Message)
    → HasUniqueIds rows
    → All HasId q
    → IsOrdered q
    → queue peer rows ≡ q
    → (k : ℕ) × (rows' : List Message) × (drop_oldest q (length q) (total_bytes q) dropped rows
        ≡ finished rows' (dropped + k))
      × IsTrimmed peer q rows rows' k
drop_oldest-IsTrimmed peer [] dropped rows u h s e = (
  0,
  rows,
  drop_oldest-stop [] dropped rows (is_over-exceeds []) ∙ ap (finished rows) (omega arith),
  IsTrimmed-none peer [] rows u e s refl,
)
drop_oldest-IsTrimmed peer (o ∷ rest) dropped rows u h s e =
    elim (Bool-cases (exceeds (o ∷ rest))) [
      | inr fits ↦ (
        0,
        rows,
        drop_oldest-stop (o ∷ rest) dropped rows (is_over-exceeds (o ∷ rest) ∙ fits)
            ∙ ap (finished rows) (omega arith),
        IsTrimmed-none peer (o ∷ rest) rows u e s fits,
      )
      | inl over ↦
          let rows' = set_status o.message_id failed rows in
          let (k, out, eq, t) =
            drop_oldest-IsTrimmed peer rest (dropped + 1) rows'
              (set_status-HasUniqueIds o.message_id failed rows u) h.1 s.1
              (queue-set_status peer rows o rest u e) in
          (
            suc k,
            out,
            drop_oldest-step o rest dropped rows h.0 (is_over-exceeds (o ∷ rest) ∙ over)
                ∙ eq
                ∙ ap (finished out) (omega arith),
            record {
              dropped = t.dropped ∙ with_status-among o (take k rest) rows;
              oldest_first = s;
              left = t.left;
              within = t.within;
              needed = needed-suc o rest k over t.needed;
              ids = t.ids;
            },
          )
    ]
