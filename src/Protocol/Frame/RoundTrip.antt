-- ===== src/Protocol/Frame/RoundTrip.antt =====
-- What is written as frames is read back, and what is read is within the limit.
use mathlib.Core.List.{append_assoc, append-nil}
use go_send.Base.{
  zero, suc, take, drop, Option-cases, inl, inr, ℕ, ◌≤◌, ◌≡◌, refl, [], ◌∷◌, ◌++◌, Option, some,
  Bytes, length, length-append, take-length-append, drop-length-append, arith,
}
use go_send.Protocol.{max_frame_size}
use go_send.Protocol.Frame.{
  ok, put_uint32, get_uint32, read_full, write_frame, read_frame_with_limit,
}

-- A writer that takes every byte.
abbrev pub append_all : Bytes → Bytes → Option Bytes
append_all w bytes = some (w ++ bytes)

get_uint32-put_uint32 : (n : ℕ) → n ≤ max_frame_size → get_uint32 (put_uint32 n) ≡ n
unfolding get_uint32 put_uint32
get_uint32-put_uint32 n h = omega arith

read_full-append : (p r : Bytes) → read_full (length p) (p ++ r) ≡ some (p, r)
unfolding read_full
read_full-append p r =
    ground (arith, length-append p r, take-length-append p r, drop-length-append p r)

read_full-header : (n : ℕ) (s : Bytes) → read_full 4 (put_uint32 n ++ s) ≡ some (put_uint32 n, s)
unfolding put_uint32
read_full-header n s = read_full-append (put_uint32 n) s

length-eq-zero : (p : Bytes) → length p ≡ 0 → p ≡ []
length-eq-zero [] h = refl
length-eq-zero (b ∷ p) h = absurd (omega arith)

-- The bytes of one frame.
abbrev pub frame_of : Bytes → Bytes
frame_of payload = put_uint32 (length payload) ++ payload

write_frame-eq :
    (w payload : Bytes)
    → length payload ≤ max_frame_size
    → write_frame append_all w payload ≡ ok (w ++ frame_of payload)
unfolding write_frame
write_frame-eq w [] h = ground (arith, append-nil (put_uint32 0))
write_frame-eq w (b ∷ p) h = ground (arith, append_assoc w (put_uint32 (length (b ∷ p))) (b ∷ p))

read_frame-eq :
    (max_size : ℕ) (payload rest : Bytes)
    → length payload ≤ max_size
    → max_size ≤ max_frame_size
    → read_frame_with_limit max_size (frame_of payload ++ rest) ≡ ok (payload, rest)
unfolding read_frame_with_limit
read_frame-eq max_size payload rest h k = ground (
  arith,
  append_assoc (put_uint32 (length payload)) payload rest,
  read_full-header (length payload) (payload ++ rest),
  get_uint32-put_uint32 (length payload),
  read_full-append payload rest,
  length-eq-zero payload,
)

-- Whatever stream a frame is written to, it is appended whole, and a reader whose limit it meets
-- gets the payload back and leaves the rest of the stream.
pub read_frame-write_frame :
    (max_size : ℕ) (w payload rest : Bytes)
    → length payload ≤ max_size
    → max_size ≤ max_frame_size
    → (frame : Bytes) × (write_frame append_all w payload ≡ ok (w ++ frame))
      × (read_frame_with_limit max_size (frame ++ rest) ≡ ok (payload, rest))
read_frame-write_frame max_size w payload rest h k = (
  frame_of payload,
  write_frame-eq w payload (omega arith),
  read_frame-eq max_size payload rest h k,
)

read_full_split :
    (n : ℕ) (s a b : Bytes) → read_full n s ≡ some (a, b) → (s ≡ a ++ b) × (length a ≡ n)
unfolding read_full
read_full_split zero s a b h = ground arith
read_full_split (suc n) [] a b h = ground arith
read_full_split (suc n) (x ∷ s) a b h = ground (arith, read_full_split n s (take n s) (drop n s))

-- A payload that is read fits the limit, and with its 4 header bytes and the rest it is the whole
-- stream: nothing is skipped and nothing is read twice.
pub read_frame_split :
    (max_size : ℕ) (s payload rest : Bytes)
    → read_frame_with_limit max_size s ≡ ok (payload, rest)
    → (length payload ≤ max_size)
      × ((header : Bytes) × (length header ≡ 4) × (s ≡ header ++ (payload ++ rest)))
unfolding read_frame_with_limit
read_frame_split max_size s payload rest h = elim (Option-cases (read_full 4 s)) [
  | inl e ↦ absurd (ground (arith, h, e))
  | inr (hr, e) ↦
      let outer = read_full_split 4 s hr.0 hr.1 in
      let inner = read_full_split (get_uint32 hr.0) hr.1 payload rest in
      (
        ground (arith, outer, inner),
        (hr.0, ground (arith, outer, inner), ground (arith, outer, inner)),
      )
]
