-- ===== src/RateLimit/Cooldown.antt =====
-- The cooldown between the add requests of a peer.
use go_send.Base.{ℕ, ◌+◌, ◌≤◌, ◌<◌, ◌≡◌, ◌↔◌, true, false, Text, arith}
use go_send.Base.Dict.{lookup-insert_self}
use go_send.RateLimit.Requests.{RateLimits, allow_add_request}

-- After an add request of a peer was allowed and a second one refused, a third is allowed exactly
-- from the end of the cooldown after the first on: the refused one does not start it again.
pub allow_add_request_apart :
    (cooldown : ℕ) (peer : Text) (t1 t2 t3 : ℕ) (r : RateLimits)
    → 0 < cooldown
    → (allow_add_request cooldown peer t1 r).1 ≡ true
    → let r1 = (allow_add_request cooldown peer t1 r).0 in
      (allow_add_request cooldown peer t2 r1).1 ≡ false
      → let r2 = (allow_add_request cooldown peer t2 r1).0 in
        ((allow_add_request cooldown peer t3 r2).1 ≡ true) ↔ (t1 + cooldown ≤ t3)
unfolding allow_add_request
allow_add_request_apart cooldown peer t1 t2 t3 r c h k =
    let set = lookup-insert_self peer t1 r.last_add_request_at in
    (λ e. ground (arith, set, h, k, e), λ e. ground (arith, set, h, k, e))
