-- ===== src/Timestamp.antt =====
-- network/peer_manager.go: withinTimestampSkew, with Go's time.Duration arithmetic.
pub mod Skew
use go_send.Base.{
  ℕ, zero, suc, ◌+◌, ◌-◌, ◌*◌, ◌^◌, Bool, true, false, ltb, leb, ◌==◌, if◌then◌else◌,
}
use go_send.Base.Int.{ℤ, pos, negsuc, ◌-ℤ◌}

-- 5 minutes, in nanoseconds.
abbrev pub max_timestamp_skew : ℕ
max_timestamp_skew = 300_000_000_000

-- time.UnixMilli: a time is kept as nanoseconds since the epoch.
unix_milli : ℤ → ℤ
unix_milli (pos n) = pos (n * 1_000_000)
unix_milli (negsuc n) = negsuc ((n + 1) * 1_000_000 - 1)

-- A Duration is an int64, and time.Time.Sub saturates at its ends.
saturate : ℤ → ℤ
saturate (pos n) = if ltb n (2 ^ 63) then pos n else pos (2 ^ 63 - 1)
saturate (negsuc n) = if ltb n (2 ^ 63) then negsuc n else negsuc (2 ^ 63 - 1)

-- Unary minus on int64: the least value is its own negation.
negate : ℤ → ℤ
negate (pos zero) = pos zero
negate (pos (suc n)) = negsuc n
negate (negsuc n) = if n == 2 ^ 63 - 1 then negsuc n else pos (suc n)

absolute : ℤ → ℤ
unfolding negate
absolute (pos n) = pos n
absolute (negsuc n) = negate (negsuc n)

at_most : ℤ → ℕ → Bool
at_most (pos n) limit = leb n limit
at_most (negsuc n) limit = true

is_zero : ℤ → Bool
is_zero (pos n) = n == 0
is_zero (negsuc n) = false

-- `now` is the clock in nanoseconds, `timestamp` the peer's milliseconds.
unfoldable pub within_timestamp_skew : ℕ → ℤ → Bool
unfolding unix_milli saturate absolute at_most is_zero ◌-ℤ◌
within_timestamp_skew now timestamp =
    if is_zero timestamp
    then false
    else let delta = saturate (pos now -ℤ unix_milli timestamp) in
      at_most (absolute delta) max_timestamp_skew
