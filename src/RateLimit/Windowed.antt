-- ===== src/RateLimit/Windowed.antt =====
-- How many connections of one address a window admits.
use go_send.Base.{
  ℕ, ◌+◌, ◌*◌, ◌≤◌, ◌<◌, ◌≡◌, true, false, not, List, [], ◌∷◌, some, Text, if◌then◌else◌, is_empty,
  leb, All, Option-cases, inl, inr, arith,
}
use go_send.Base.Dict.{lookup, lookup-insert_self, lookup-keep_keys}
use go_send.RateLimit.Inbound.{
  ConnectionRate, InboundRates, is_young, prune_connection_rate_entries, current_entry,
  allow_inbound_connection,
}

-- The number of connections of an address that are admitted at these times.
unfoldable pub admitted : ℕ → ℕ → Text → List ℕ → InboundRates → ℕ
admitted limit window ip [] r = 0
admitted limit window ip (now ∷ times) r =
    let (r', ok) = allow_inbound_connection limit window now ip r in
    let rest = admitted limit window ip times r' in if ok then rest + 1 else rest

-- An entry whose window is not over survives a prune.
prune-keeps :
    (window now : ℕ) (ip : Text) (r : InboundRates) (entry : ConnectionRate)
    → lookup ip r.rates ≡ some entry
    → now ≤ entry.last_seen + window * 4
    → lookup ip (prune_connection_rate_entries now (window * 4) r).rates ≡ some entry
unfolding prune_connection_rate_entries
prune-keeps window now ip r entry h young =
    ground (arith, h, young, lookup-keep_keys (is_young now (window * 4) r.rates) ip r.rates)

-- What a prune keeps was there.
prune-lookup :
    (window now : ℕ) (ip : Text) (r : InboundRates) (entry : ConnectionRate)
    → lookup ip (prune_connection_rate_entries now (window * 4) r).rates ≡ some entry
    → lookup ip r.rates ≡ some entry
unfolding prune_connection_rate_entries
prune-lookup window now ip r entry h =
    ground (arith, h, lookup-keep_keys (is_young now (window * 4) r.rates) ip r.rates)

-- A call inside the window of an entry.
allow-inside :
    (limit window now : ℕ) (ip : Text) (r : InboundRates) (entry : ConnectionRate)
    → 0 < limit
    → 0 < window
    → is_empty ip ≡ false
    → lookup ip r.rates ≡ some entry
    → entry.window_start ≤ entry.last_seen
    → entry.window_start ≤ now
    → now < entry.window_start + window
    → let (r', ok) = allow_inbound_connection limit window now ip r in
      (lookup ip r'.rates
        ≡ some (record {
          window_start = entry.window_start;
          count = if ok then entry.count + 1 else entry.count;
          last_seen = now;
        }))
      × (ok ≡ not (leb limit entry.count))
unfolding allow_inbound_connection current_entry
allow-inside limit window now ip r entry pl pw named h seen from until =
    let r' = prune_connection_rate_entries now (window * 4) r in
    let kept = prune-keeps window now ip r entry h (omega arith) in
    let refused = record entry { last_seen = now } in
    ground (
      arith,
      named,
      kept,
      lookup-insert_self ip refused r'.rates,
      lookup-insert_self ip (record refused { count = entry.count + 1 }) r'.rates,
    )

-- Inside the window of an entry no more are admitted than it leaves.
admitted-inside :
    (limit window : ℕ) (ip : Text) (times : List ℕ) (r : InboundRates) (entry : ConnectionRate)
    → 0 < limit
    → 0 < window
    → is_empty ip ≡ false
    → lookup ip r.rates ≡ some entry
    → entry.window_start ≤ entry.last_seen
    → entry.count ≤ limit
    → All (λ now. (entry.window_start ≤ now) × (now < entry.window_start + window)) times
    → admitted limit window ip times r + entry.count ≤ limit
unfolding admitted
admitted-inside limit window ip [] r entry pl pw named h seen few inside = omega (arith, few)
admitted-inside limit window ip (now ∷ times) r entry pl pw named h seen few ((a, b), inside) =
    let call = allow_inbound_connection limit window now ip r in
    let step = allow-inside limit window now ip r entry pl pw named h seen a b in
    let entry' = record entry {
      count = if call.1 then entry.count + 1 else entry.count;
      last_seen = now;
    } in
    let rest =
      admitted-inside limit window ip times call.0 entry' pl pw named step.0 a
        (ground (arith, step.1, few)) inside in
    ground (arith, step.1, rest)

-- A connection that opens a window: the address has no entry, or one whose window is over.
opens :
    (limit window now : ℕ) (ip : Text) (r : InboundRates)
    → 0 < limit
    → 0 < window
    → is_empty ip ≡ false
    → ((entry : ConnectionRate)
        → lookup ip r.rates ≡ some entry
        → entry.window_start + window ≤ now)
    → let (r', ok) = allow_inbound_connection limit window now ip r in
      (lookup ip r'.rates ≡ some (record { window_start = now; count = 1; last_seen = now }))
      × (ok ≡ true)
unfolding allow_inbound_connection current_entry
opens limit window now ip r pl pw named old =
    let r' = prune_connection_rate_entries now (window * 4) r in
    let stored =
      lookup-insert_self ip (record { window_start = now; count = 1; last_seen = now }) r'.rates in
    elim (Option-cases (lookup ip r'.rates)) [
      | inl e ↦ ground (arith, named, e, stored)
      | inr (entry, e) ↦
          ground (arith, named, e, stored, old entry (prune-lookup window now ip r entry e))
    ]

-- Of the connections of one address within one window, counted from the first that found no window
-- of the address open, the server admits at most the limit, and always the first.
pub admitted_bounded :
    (limit window : ℕ) (ip : Text) (now : ℕ) (times : List ℕ) (r : InboundRates)
    → 0 < limit
    → 0 < window
    → is_empty ip ≡ false
    → ((entry : ConnectionRate)
        → lookup ip r.rates ≡ some entry
        → entry.window_start + window ≤ now)
    → All (λ t. (now ≤ t) × (t < now + window)) times
    → (admitted limit window ip (now ∷ times) r ≤ limit)
      × (1 ≤ admitted limit window ip (now ∷ times) r)
unfolding admitted
admitted_bounded limit window ip now times r pl pw named old inside =
    let call = allow_inbound_connection limit window now ip r in
    let first = opens limit window now ip r pl pw named old in
    let rest =
      admitted-inside limit window ip times call.0
        (record { window_start = now; count = 1; last_seen = now }) pl pw named first.0
        (omega arith) (omega arith) inside in
    (ground (arith, first.1, rest), ground (arith, first.1, rest))
