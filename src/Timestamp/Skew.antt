-- ===== src/Timestamp/Skew.antt =====
-- When withinTimestampSkew accepts a timestamp.
use go_send.Base.{ℕ, ◌+◌, ◌*◌, ◌^◌, ◌-◌, ◌≤◌, ◌<◌, ◌≡◌, ◌↔◌, true, arith}
use go_send.Base.Int.{pos}
use go_send.Timestamp.{max_timestamp_skew, within_timestamp_skew}

-- Within the range of a Duration (2 ^ 63 ns ahead of the clock), a timestamp is accepted exactly
-- when it is not 0 and lies at most five minutes before or after the clock.
pub within_timestamp_skew_iff :
    (now ms : ℕ)
    → ms * 1_000_000 ≤ now + (2 ^ 63 - 1)
    → (within_timestamp_skew now (pos ms) ≡ true) ↔ (
        (0 < ms)
        × (now ≤ ms * 1_000_000 + max_timestamp_skew)
        × (ms * 1_000_000 ≤ now + max_timestamp_skew))
unfolding within_timestamp_skew
within_timestamp_skew_iff now ms h = (λ t. ground arith, λ t. ground arith)

-- A timestamp 2 ^ 63 ns or more ahead of the clock is accepted: the saturated difference is the
-- least int64, which negation leaves negative.
pub far_future_accepted :
    (now ms : ℕ) → now + 2 ^ 63 ≤ ms * 1_000_000 → within_timestamp_skew now (pos ms) ≡ true
unfolding within_timestamp_skew
far_future_accepted now ms h = ground arith
