-- ===== src/Examples/Keys.antt =====
-- Timestamps, frames and session keys at concrete inputs.
use go_send.Base.{
  ℕ, ◌^◌, ◌≢◌, some, ◌+◌, ◌*◌, ◌≤◌, ◌<◌, ◌≡◌, ◌↔◌, refl, true, [], ◌∷◌, ◌++◌, Bytes, Text, codes,
  length, trim_space, arith,
}
use go_send.Base.Int.{pos}
use go_send.Timestamp.{max_timestamp_skew, within_timestamp_skew}
use go_send.Timestamp.Skew.{within_timestamp_skew_iff, far_future_accepted}
use go_send.Protocol.Frame.{ok, get_uint32, read_full, write_frame, read_frame_with_limit}
use go_send.Protocol.Frame.RoundTrip.{append_all, read_frame-write_frame, read_frame_split}
use go_send.Crypto.Session.{
  shared_secret, derive_session_key_with_context, derive_session_key, derive_rekey_session_key,
}
use go_send.Crypto.Separation.{IsFormatUint, IsKeyOf, session_keys_apart}
use go_send.Examples.Toy.{toy, zeros}

-- 2024-01-01 in nanoseconds, and four minutes later in milliseconds.
abbrev new_year : ℕ
new_year = 1_704_067_200_000_000_000

abbrev four_minutes_later : ℕ
four_minutes_later = 1_704_067_440_000

within_timestamp_skew_iff_example :
    (within_timestamp_skew new_year (pos four_minutes_later) ≡ true) ↔ (
      (0 < four_minutes_later)
      × (new_year ≤ four_minutes_later * 1_000_000 + max_timestamp_skew)
      × (four_minutes_later * 1_000_000 ≤ new_year + max_timestamp_skew))
within_timestamp_skew_iff_example =
    within_timestamp_skew_iff new_year four_minutes_later (omega arith)

-- The year 2554.
abbrev far_future : ℕ
far_future = 18_429_000_000_000

far_future_accepted_example : within_timestamp_skew new_year (pos far_future) ≡ true
far_future_accepted_example = far_future_accepted new_year far_future (omega arith)

read_frame-write_frame_example :
    (frame : Bytes) × (write_frame append_all (7 ∷ []) (codes "hi") ≡ ok ((7 ∷ []) ++ frame))
    × (read_frame_with_limit 64 (frame ++ (9 ∷ [])) ≡ ok (codes "hi", 9 ∷ []))
read_frame-write_frame_example =
    read_frame-write_frame 64 (7 ∷ []) (codes "hi") (9 ∷ []) (omega arith) (omega arith)

abbrev two_bytes : Bytes
two_bytes = 5 ∷ 6 ∷ []

abbrev two_byte_frame : Bytes
two_byte_frame = 0 ∷ 0 ∷ 0 ∷ 2 ∷ 5 ∷ 6 ∷ 9 ∷ []

two_byte_frame_read : read_frame_with_limit 64 two_byte_frame ≡ ok (two_bytes, 9 ∷ [])
unfolding read_frame_with_limit read_full get_uint32
two_byte_frame_read = refl

read_frame_split_example :
    (length two_bytes ≤ 64)
    × ((header : Bytes) × (length header ≡ 4)
        × (two_byte_frame ≡ header ++ (two_bytes ++ (9 ∷ []))))
read_frame_split_example = read_frame_split 64 two_byte_frame two_bytes (9 ∷ []) two_byte_frame_read

-- The digits of the toy: one code for each number.
one_code : (m n : ℕ) → ◌≡◌ {A = Text} (m ∷ []) (n ∷ []) → m ≡ n
one_code m n h = ground (arith, h)

few_digits : (n : ℕ) → n < 2 ^ 64 → length {A = ℕ} (n ∷ []) ≤ 20
few_digits n h = omega arith

abbrev one_code-IsFormatUint : IsFormatUint (λ n. n ∷ [])
one_code-IsFormatUint = record { injective = one_code; digits = few_digits }

handshake_key :
    derive_session_key toy (1 ∷ []) (2 ∷ []) (codes "alice") (codes "bob") (zeros 32)
    ≡ some (zeros 32)
unfolding derive_session_key derive_session_key_with_context shared_secret trim_space
handshake_key = refl

rekey_1 :
    derive_rekey_session_key toy (λ n. n ∷ []) (3 ∷ []) (4 ∷ []) (codes "alice") (codes "bob") 1
    ≡ some (zeros 32)
unfolding derive_rekey_session_key derive_session_key_with_context shared_secret trim_space
rekey_1 = refl

rekey_2 :
    derive_rekey_session_key toy (λ n. n ∷ []) (5 ∷ []) (6 ∷ []) (codes "alice") (codes "bob") 2
    ≡ some (zeros 32)
unfolding derive_rekey_session_key derive_session_key_with_context shared_secret trim_space
rekey_2 = refl

one_not_two : ◌≢◌ {A = ℕ} 1 2
one_not_two h = absurd (omega (arith, h))

session_keys_apart_example :
    (i0 : Bytes) × (i1 : Bytes) × (i2 : Bytes) × IsKeyOf toy (1 ∷ []) (2 ∷ []) i0 (zeros 32)
    × IsKeyOf toy (3 ∷ []) (4 ∷ []) i1 (zeros 32)
    × IsKeyOf toy (5 ∷ []) (6 ∷ []) i2 (zeros 32)
    × (i0 ≢ i1)
    × (i0 ≢ i2)
    × (i1 ≢ i2)
session_keys_apart_example =
    session_keys_apart toy (λ n. n ∷ []) one_code-IsFormatUint (codes "alice") (codes "bob")
      (1 ∷ []) (3 ∷ []) (5 ∷ []) (2 ∷ []) (4 ∷ []) (6 ∷ []) (zeros 32) 1 2 (zeros 32) (zeros 32)
      (zeros 32) (omega arith) (omega arith) one_not_two handshake_key rekey_1 rekey_2
