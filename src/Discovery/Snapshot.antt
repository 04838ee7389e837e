-- ===== src/Discovery/Snapshot.antt =====
-- discovery/peer_scanner.go: applySnapshot. Times are nanoseconds of one clock; the maps are iterated
-- in the order of their lists.
use go_send.Base.{
  ℕ, ◌+◌, Bool, true, false, not, ◌&&◌, ◌||◌, List, [], ◌∷◌, ◌++◌, Option, none, some, Text,
  if◌then◌else◌, ltb, length, text_eq,
}
use go_send.Base.Int.{ℤ, eqb_ℤ}
use go_send.Base.Dict.{Dict, lookup, insert, keep_keys}

-- `last_seen` is none for the zero time.
pub record DiscoveredPeer : Type 0 where
  pub device_id : Text
  pub device_name : Text
  pub discovery_token : Text
  pub version : ℤ
  pub host_name : Text
  pub port : ℤ
  pub addresses : List Text
  pub last_seen : Option ℕ

pub data DiscoveryEvent : Type 0 where
  upserted removed : DiscoveredPeer → DiscoveryEvent

-- The peers and the channel of events.
pub record PeerScanner : Type 0 where
  pub peers : Dict DiscoveredPeer
  pub events : List DiscoveryEvent

unfoldable pub addresses_equal : List Text → List Text → Bool
addresses_equal [] [] = true
addresses_equal [] (y ∷ ys) = false
addresses_equal (x ∷ xs) [] = false
addresses_equal (x ∷ xs) (y ∷ ys) = let rest = addresses_equal xs ys in text_eq x y && rest

-- peersEqual.
unfoldable pub peers_equal : DiscoveredPeer → DiscoveredPeer → Bool
unfolding addresses_equal
peers_equal a b =
    if not (text_eq a.device_id b.device_id)
      || not (text_eq a.device_name b.device_name)
      || not (text_eq a.discovery_token b.discovery_token)
      || not (eqb_ℤ a.version b.version)
      || not (text_eq a.host_name b.host_name)
      || not (eqb_ℤ a.port b.port)
    then false
    else addresses_equal a.addresses b.addresses

-- emitEvent: the channel holds 128 events, and drops what comes after.
abbrev pub max_events : ℕ
max_events = 128

unfoldable pub emit_event : DiscoveryEvent → List DiscoveryEvent → List DiscoveryEvent
emit_event e events = if ltb (length events) max_events then events ++ (e ∷ []) else events

unfoldable pub emit_all : List DiscoveryEvent → List DiscoveryEvent → List DiscoveryEvent
emit_all [] events = events
emit_all (e ∷ es) events = emit_all es (emit_event e events)

-- A peer that is there already with the same description.
unfoldable pub is_known_peer : Dict DiscoveredPeer → Text → DiscoveredPeer → Bool
is_known_peer previous id peer = elim (lookup id previous) [
  | none ↦ false
  | some old ↦ peers_equal old peer
]

-- The events of the loop over the new snapshot.
unfoldable pub upserts : Dict DiscoveredPeer → Dict DiscoveredPeer → List DiscoveryEvent
upserts previous [] = []
upserts previous ((id, peer) ∷ next) =
    let rest = upserts previous next in
    if is_known_peer previous id peer then rest else upserted peer ∷ rest

-- `merged[id] = peer` for the new snapshot.
unfoldable pub overwrite : Dict DiscoveredPeer → Dict DiscoveredPeer → Dict DiscoveredPeer
overwrite merged [] = merged
overwrite merged ((id, peer) ∷ next) = overwrite (insert id peer merged) next

-- `!peer.LastSeen.IsZero() && now.Sub(peer.LastSeen) < stale_after`.
abbrev pub is_fresh : ℕ → ℕ → DiscoveredPeer → Bool
is_fresh now stale_after peer = elim peer.last_seen [
  | none ↦ false
  | some seen ↦ ltb now (seen + stale_after)
]

-- Whether an ID of the merged map stays.
unfoldable pub stays : ℕ → ℕ → Dict DiscoveredPeer → Dict DiscoveredPeer → Text → Bool
stays now stale_after next merged id = elim (lookup id next) [
  | some peer ↦ true
  | none ↦ elim (lookup id merged) [ none ↦ false | some peer ↦ is_fresh now stale_after peer ]
]

-- The events of the loop over the merged map.
unfoldable pub removals : (Text → Bool) → Dict DiscoveredPeer → List DiscoveryEvent
removals stay [] = []
removals stay ((id, peer) ∷ merged) =
    let rest = removals stay merged in if stay id then rest else removed peer ∷ rest

-- applySnapshot.
unfoldable pub apply_snapshot : ℕ → ℕ → Dict DiscoveredPeer → PeerScanner → PeerScanner
apply_snapshot now stale_after next s =
    let merged = overwrite s.peers next in
    let stay = stays now stale_after next merged in
    record {
      peers = keep_keys stay merged;
      events = emit_all (removals stay merged) (emit_all (upserts s.peers next) s.events);
    }
