-- ===== src/Examples/Limits.antt =====
-- The limits on requests at concrete inputs.
use go_send.Base.{
  ℕ, none, some, text_eq, trim_space, ◌+◌, ◌≤◌, ◌≡◌, ◌↔◌, refl, true, false, List, [], ◌∷◌, Text,
  codes, length, select, arith,
}
use go_send.Base.Dict.{delete, lookup, insert, keep_keys}
use go_send.RateLimit.Requests.{
  RateLimits, allow_add_request, allow_file_request, recent_history, recent_files, is_recent_file,
  set_files,
}
use go_send.RateLimit.Window.{in_stretch}
use go_send.RateLimit.Fresh.{fresh_times, fresh_bounded}
use go_send.RateLimit.Inbound.{
  ConnectionRate, InboundRates, prune_connection_rate_entries, current_entry,
  allow_inbound_connection,
}
use go_send.RateLimit.Windowed.{admitted, admitted_bounded}
use go_send.RateLimit.Cooldown.{allow_add_request_apart}

abbrev no_requests : RateLimits
no_requests = record {
  last_add_request_at = [];
  file_request_history = [];
  file_request_seen_ids = [];
}

-- Four requests, one of them for a file that was asked for before.
abbrev requests : List (Text × ℕ)
requests = (codes "f1", 10) ∷ (codes "f1", 11) ∷ (codes "f2", 12) ∷ (codes "f3", 13) ∷ []

no_history : lookup (codes "alice") no_requests.file_request_history ≡ none
unfolding lookup
no_history = refl

no_files : lookup (codes "alice") no_requests.file_request_seen_ids ≡ none
unfolding lookup
no_files = refl

-- The fourth is refused, and the second is not counted.
fresh_test : fresh_times 2 60 (codes "alice") requests [] no_requests ≡ 10 ∷ 12 ∷ []
unfolding fresh_times allow_file_request recent_history recent_files is_recent_file set_files
    keep_keys trim_space lookup insert delete text_eq
fresh_test = refl

fresh_bounded_example :
    length (select (in_stretch 60 5) (fresh_times 2 60 (codes "alice") requests [] no_requests)) ≤ 2
fresh_bounded_example =
    fresh_bounded 2 60 0 (codes "alice") requests no_requests refl (omega arith) (omega arith)
      (omega arith, (omega arith, (omega arith, (omega arith, tt)))) no_history no_files 5

allowed_at_ten : (allow_add_request 30 (codes "alice") 10 no_requests).1 ≡ true
unfolding allow_add_request lookup insert
allowed_at_ten = refl

refused_at_twenty :
    let r1 = (allow_add_request 30 (codes "alice") 10 no_requests).0 in
    (allow_add_request 30 (codes "alice") 20 r1).1 ≡ false
unfolding allow_add_request lookup insert text_eq
refused_at_twenty = refl

allow_add_request_apart_example :
    let r1 = (allow_add_request 30 (codes "alice") 10 no_requests).0 in
    let r2 = (allow_add_request 30 (codes "alice") 20 r1).0 in
    ((allow_add_request 30 (codes "alice") 40 r2).1 ≡ true) ↔ (10 + 30 ≤ 40)
allow_add_request_apart_example =
    allow_add_request_apart 30 (codes "alice") 10 20 40 no_requests (omega arith) allowed_at_ten
      refused_at_twenty

abbrev no_rates : InboundRates
no_rates = record { rates = []; last_prune = none }

no_window :
    (entry : ConnectionRate)
    → lookup (codes "h1") no_rates.rates ≡ some entry
    → entry.window_start + 60 ≤ 100
unfolding lookup
no_window entry h = absurd (ground (arith, h))

admitted_test : admitted 2 60 (codes "h1") (100 ∷ 110 ∷ 120 ∷ []) no_rates ≡ 2
unfolding admitted allow_inbound_connection prune_connection_rate_entries current_entry keep_keys
    lookup insert text_eq
admitted_test = refl

admitted_bounded_example :
    (admitted 2 60 (codes "h1") (100 ∷ 110 ∷ 120 ∷ []) no_rates ≤ 2)
    × (1 ≤ admitted 2 60 (codes "h1") (100 ∷ 110 ∷ 120 ∷ []) no_rates)
admitted_bounded_example =
    admitted_bounded 2 60 (codes "h1") 100 (110 ∷ 120 ∷ []) no_rates (omega arith) (omega arith)
      refl no_window ((omega arith, omega arith), ((omega arith, omega arith), tt))
