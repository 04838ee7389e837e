-- ===== src/Examples/Discoveries.antt =====
-- A snapshot of the scanner at concrete inputs.
use go_send.Base.{ℕ, ◌+◌, ◌≤◌, ◌≡◌, refl, [], ◌∷◌, ◌++◌, some, Text, codes, length, text_eq, arith}
use go_send.Base.Int.{pos}
use go_send.Base.Dict.{Dict, lookup, insert}
use go_send.Discovery.Snapshot.{
  DiscoveredPeer, PeerScanner, peers_equal, is_known_peer, max_events, upserts, overwrite, stays,
  removals, apply_snapshot,
}
use go_send.Discovery.Replay.{described, IsPeerMap, IsKeyed, replay, replay-apply_snapshot}

abbrev device : Text → ℕ → DiscoveredPeer
device id seen = record {
  device_id = id;
  device_name = id;
  discovery_token = [];
  version = pos 1;
  host_name = id;
  port = pos 9999;
  addresses = [];
  last_seen = some seen;
}

-- One peer that was seen long ago, and one that is seen again.
abbrev scanner : PeerScanner
scanner = record {
  peers = (codes "a", device (codes "a") 1) ∷ (codes "b", device (codes "b") 5) ∷ [];
  events = [];
}

abbrev found_now : Dict DiscoveredPeer
found_now = (codes "b", device (codes "b") 90) ∷ (codes "c", device (codes "c") 90) ∷ []

scanner-IsKeyed : IsKeyed scanner.peers
scanner-IsKeyed = (refl, (refl, tt))

found_now-IsPeerMap : IsPeerMap found_now
unfolding lookup text_eq
found_now-IsPeerMap = (refl, refl, (refl, refl, tt))

snapshot_fits :
    let merged = overwrite scanner.peers found_now in
    length scanner.events
      + length (upserts scanner.peers found_now ++ removals (stays 100 30 found_now merged) merged)
    ≤ max_events
unfolding overwrite upserts removals stays is_known_peer peers_equal insert lookup text_eq
snapshot_fits = omega arith

replay-apply_snapshot_example :
    let s' = apply_snapshot 100 30 found_now scanner in
    let merged = overwrite scanner.peers found_now in
    let emitted =
      upserts scanner.peers found_now ++ removals (stays 100 30 found_now merged) merged in
    (s'.events ≡ scanner.events ++ emitted)
    × ((j : Text)
        → described (lookup j (replay emitted scanner.peers)) ≡ described (lookup j s'.peers))
replay-apply_snapshot_example =
    replay-apply_snapshot 100 30 found_now scanner.peers scanner scanner-IsKeyed found_now-IsPeerMap
      (λ j. refl) snapshot_fits
