-- ===== src/Transfer/Advance.antt =====
-- The loop over NextChunk in handleFileData.
use go_send.Base.{
  ℕ, zero, suc, ◌+◌, ◌≤◌, ◌<◌, ◌≡◌, refl, true, false, List, [], ◌∷◌, ◌==◌, ==_iff, ltb, ltb→lt,
  has, All, Bool-cases, inl, inr, arith,
}
use go_send.Transfer.Node.{InboundFileTransfer}
use go_send.Transfer.Receive.{advance, mark_received}

below : (total n : ℕ) (xs : List ℕ) → All (λ x. x < total) xs → total ≤ n → has n xs ≡ false
below total n [] h k = refl
below total n (x ∷ xs) (h, hs) k = ground (arith, below total n xs hs k)

-- Where the loop ends: at the first index from `next` on that is not received.
record IsFirstMissing (received : List ℕ) (next n : ℕ) : Type 0 where
  from : next ≤ n
  missing : has n received ≡ false
  held : (k : ℕ) → next ≤ k → k < n → has k received ≡ true

advance-IsFirstMissing :
    (fuel total next : ℕ) (received : List ℕ)
    → All (λ x. x < total) received
    → total < next + fuel
    → IsFirstMissing received next (advance fuel received next)
unfolding advance
advance-IsFirstMissing zero total next received h k = record {
  from = omega arith;
  missing = below total next received h (omega arith);
  held = λ k a b. absurd (omega arith);
}
advance-IsFirstMissing (suc fuel) total next received h k = elim (Bool-cases (has next received)) [
  | inl e ↦
      let rest = advance-IsFirstMissing fuel total (next + 1) received h (omega arith) in
      -- `next` itself is received, and the rest is the claim from `next + 1` on.
      rw e (record {
        from = omega (arith, rest.from);
        missing = rest.missing;
        held = λ k a b. elim (Bool-cases (k == next)) [
          | inl same ↦ rw ((==_iff k next).0 same) e
          | inr other ↦ rest.held k (ground (arith, other)) b
        ];
      })
  | inr e ↦ rw e (record { from = omega arith; missing = e; held = λ k a b. absurd (omega arith) })
]

-- The indices received are those of chunks of the file, and NextChunk is the first that is missing.
pub record IsInOrder (t : InboundFileTransfer) : Type 0 where
  pub in_file : All (λ x. x < t.total_chunks) t.received_chunks
  pub prefix : (k : ℕ) → k < t.next_chunk → has k t.received_chunks ≡ true
  pub missing : has t.next_chunk t.received_chunks ≡ false

-- Counting a chunk of the file keeps the transfer in order: the loop that moves NextChunk ends, and
-- it ends at the first chunk that is still missing.
pub mark_received-IsInOrder :
    (index size : ℕ) (t : InboundFileTransfer)
    → IsInOrder t
    → index < t.total_chunks
    → IsInOrder (mark_received index size t)
unfolding mark_received
mark_received-IsInOrder index size t h k = elim (Bool-cases (has index t.received_chunks)) [
  | inl e ↦ rw e h
  | inr e ↦
      let received = index ∷ t.received_chunks in
      let moved =
        advance-IsFirstMissing (t.total_chunks + 1) t.total_chunks t.next_chunk received
          (k, h.in_file) (omega arith) in
      rw e (record {
        in_file = (k, h.in_file);
        prefix = λ j less. elim (Bool-cases (ltb j t.next_chunk)) [
          | inl before ↦ ground (arith, h.prefix j (ltb→lt j t.next_chunk before))
          | inr after ↦ moved.held j (ground (arith, after)) less
        ];
        missing = moved.missing;
      })
]
