-- ===== src/Connection/Sequence.antt =====
-- Replay protection: ValidateSequence and NextSendSequence.
use go_send.Base.{ℕ, ◌+◌, ◌^◌, ◌≤◌, ◌<◌, ◌≡◌, List, [], ◌∷◌, Option, none, some, arith}
use go_send.Connection.State.{ConnError, PeerConnection, next_send_sequence, validate_sequence}

-- The sequence numbers that a connection accepts out of those that arrive.
abbrev keep_if : Option ConnError → ℕ → List ℕ → List ℕ
keep_if none n rest = n ∷ rest
keep_if (some e) n rest = rest

unfoldable pub accepted : PeerConnection → List ℕ → List ℕ
accepted pc [] = []
accepted pc (n ∷ ns) = let (pc', e) = validate_sequence pc n in keep_if e n (accepted pc' ns)

-- A strictly rising list above a bound.
abbrev pub RisesAbove : ℕ → List ℕ → Type 0
RisesAbove k [] = Unit {0}
RisesAbove k (n ∷ ns) = (k < n) × RisesAbove n ns

-- Whatever arrives, the numbers that are accepted rise strictly, from above the last one seen: no
-- number is accepted twice, and none after a greater one.
pub accepted_rises :
    (ns : List ℕ) (pc : PeerConnection) → RisesAbove pc.last_seen_seq (accepted pc ns)
unfolding accepted validate_sequence
accepted_rises [] pc = tt
accepted_rises (n ∷ ns) pc =
    ground (arith, accepted_rises ns pc, accepted_rises ns (record pc { last_seen_seq = n }))

-- The numbers of one sender, each used or lost on the way, are all accepted: while the receiver has
-- seen nothing above the sender's counter and the counter does not wrap, the next number is
-- accepted and the same holds again.
pub validate-next_send :
    (sender receiver : PeerConnection)
    → receiver.last_seen_seq ≤ sender.send_sequence
    → sender.send_sequence + 1 < 2 ^ 64
    → let (sender', n) = next_send_sequence sender in
      let (receiver', e) = validate_sequence receiver n in
      (e ≡ none)
      × (receiver'.last_seen_seq ≡ sender'.send_sequence)
      × (sender'.send_sequence ≡ sender.send_sequence + 1)
unfolding next_send_sequence validate_sequence
validate-next_send sender receiver h k = ground arith
