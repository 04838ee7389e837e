-- ===== src/RateLimit/Inbound.antt =====
-- network/server.go: allowInboundConnection. Times are nanoseconds of one clock.
use go_send.Base.{
  ℕ, ◌+◌, ◌*◌, Bool, true, false, ◌||◌, Option, none, some, Text, if◌then◌else◌, is_empty, ltb, leb,
  ◌==◌,
}
use go_send.Base.Dict.{Dict, lookup, insert, keep_keys}

-- inboundConnectionRate, once it was touched.
pub record ConnectionRate : Type 0 where
  pub window_start : ℕ
  pub count : ℕ
  pub last_seen : ℕ

-- connectionRates and lastRateLimiterPrune (none is the zero time).
pub record InboundRates : Type 0 where
  pub rates : Dict ConnectionRate
  pub last_prune : Option ℕ

-- The entries that a prune keeps.
abbrev pub is_young : ℕ → ℕ → Dict ConnectionRate → Text → Bool
is_young now max_age rates ip = elim (lookup ip rates) [
  | none ↦ false
  | some entry ↦ leb now (entry.last_seen + max_age)
]

-- pruneConnectionRateEntries, at most once a second.
unfoldable pub prune_connection_rate_entries : ℕ → ℕ → InboundRates → InboundRates
prune_connection_rate_entries now max_age r =
    let pruned = record r {
      rates = keep_keys (is_young now max_age r.rates) r.rates;
      last_prune = some now;
    } in
    if is_empty r.rates || max_age == 0 then r else elim r.last_prune [
      | none ↦ pruned
      | some last ↦ if ltb now (last + 1_000_000_000) then r else pruned
    ]

-- The entry of an address at this time: a new one where there is none or its window is over.
unfoldable pub current_entry : ℕ → ℕ → Option ConnectionRate → ConnectionRate
current_entry window now none = record { window_start = now; count = 0; last_seen = now }
current_entry window now (some entry) =
    if leb (entry.window_start + window) now
    then record { window_start = now; count = 0; last_seen = now }
    else record entry { last_seen = now }

-- allowInboundConnection, with remoteIPFromAddr of the address.
unfoldable pub allow_inbound_connection : ℕ → ℕ → ℕ → Text → InboundRates → InboundRates × Bool
unfolding prune_connection_rate_entries current_entry
allow_inbound_connection limit window now ip r =
    if limit == 0 || window == 0
    then (r, true)
    else if is_empty ip
    then (r, true)
    else (let r' = prune_connection_rate_entries now (window * 4) r in
        let entry = current_entry window now (lookup ip r'.rates) in
        if leb limit entry.count then (record r' { rates = insert ip entry r'.rates }, false) else (
          record r' { rates = insert ip (record entry { count = entry.count + 1 }) r'.rates },
          true,
        ))
