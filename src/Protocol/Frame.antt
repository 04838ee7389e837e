-- ===== src/Protocol/Frame.antt =====
-- network/protocol.go: WriteFrame and readFrameWithLimit, over a stream of bytes.
pub mod RoundTrip
use go_send.Base.{
  ℕ, ◌+◌, ◌*◌, ◌/◌, ◌%◌, Bool, true, false, List, [], ◌∷◌, ◌++◌, Option, none, some, Bytes, leb,
  ltb, ◌==◌, if◌then◌else◌, is_empty, length, take, drop,
}
use go_send.Protocol.{max_frame_size}

pub data FrameError : Type 0 where
  frame_too_large write_failed read_failed : FrameError

pub data Result {ℓ} (A : Type ℓ) : Type ℓ where
  ok : A → Result A
  err : FrameError → Result A

-- binary.BigEndian.PutUint32(header, uint32(n)).
unfoldable pub put_uint32 : ℕ → Bytes
put_uint32 n = (n / 16777216 % 256) ∷ (n / 65536 % 256) ∷ (n / 256 % 256) ∷ (n % 256) ∷ []

-- binary.BigEndian.Uint32(header).
unfoldable pub get_uint32 : Bytes → ℕ
get_uint32 (a ∷ b ∷ c ∷ d ∷ _) = a * 16777216 + b * 65536 + c * 256 + d
get_uint32 _ = 0

-- io.ReadFull of n bytes from a stream with these bytes left: a short stream is an error.
unfoldable pub read_full : ℕ → Bytes → Option (Bytes × Bytes)
read_full n s = if leb n (length s) then some (take n s, drop n s) else none

-- `write` is the writer's Write: the stream after the bytes, or none.
unfoldable pub write_frame : (Bytes → Bytes → Option Bytes) → Bytes → Bytes → Result Bytes
write_frame write w payload =
    if ltb max_frame_size (length payload)
    then err frame_too_large
    else elim (write w (put_uint32 (length payload))) [
      | none ↦ err write_failed
      | some w' ↦
          if length payload == 0
          then ok w'
          else elim (write w' payload) [ none ↦ err write_failed | some w'' ↦ ok w'' ]
    ]

unfoldable pub read_frame_with_limit : ℕ → Bytes → Result (Bytes × Bytes)
read_frame_with_limit max_size r = elim (read_full 4 r) [
  | none ↦ err read_failed
  | some (header, r') ↦
      let n = get_uint32 header in
      if ltb max_size n
      then err frame_too_large
      else if n == 0
      then ok ([], r')
      else elim (read_full n r') [
        | none ↦ err read_failed
        | some (payload, r'') ↦ ok (payload, r'')
      ]
]

-- ReadFrame.
unfoldable pub read_frame : Bytes → Result (Bytes × Bytes)
unfolding read_frame_with_limit
read_frame = read_frame_with_limit max_frame_size
