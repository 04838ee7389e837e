-- ===== src/Examples/Endpoints.antt =====
-- Endpoints of a peer at concrete inputs.
use go_send.Base.{
  ◌⊎◌, ◌||◌, is_empty, none, List, Text, ◌≡◌, refl, true, false, [], ◌∷◌, some, codes, text_eq,
  text_lt, trim_space,
}
use go_send.Base.Dict.{lookup}
use go_send.Endpoint.Health.{
  Endpoints, PeerAddress, clean, discovered_endpoints_for_peer, endpoint_health_score, is_before,
  insert_ranked, sort_ranked, sort_endpoints_by_health, known_endpoints, resolve_peer_addresses,
}
use go_send.Endpoint.Plan.{on_record, IsPlan, resolve_peer_addresses-IsPlan}

-- The second endpoint did better.
abbrev tried : Endpoints
tried = record {
  discovered = (codes "bob", codes "h1:1" ∷ codes " h2:2" ∷ []) ∷ [];
  health = (codes "bob", (codes "h2:2", 3) ∷ []) ∷ [];
}

abbrev bob_address : PeerAddress
bob_address = record { is_barred = false; last_known = some (codes "h1:1") }

bob_resolved :
    resolve_peer_addresses (codes "bob") (some bob_address) tried
    ≡ some (codes "h2:2" ∷ codes "h1:1" ∷ [])
unfolding resolve_peer_addresses known_endpoints discovered_endpoints_for_peer clean
    sort_endpoints_by_health sort_ranked insert_ranked is_before endpoint_health_score trim_space
    text_eq text_lt lookup
bob_resolved = refl

resolve_peer_addresses-IsPlan_example :
    ((resolve_peer_addresses (codes "bob") (some bob_address) tried ≡ none)
      × (bob_address.is_barred || is_empty (on_record (codes "bob") bob_address tried) ≡ true))
    ⊎ ((bob_address.is_barred || is_empty (on_record (codes "bob") bob_address tried) ≡ false)
        × ((addresses : List Text) × (resolve_peer_addresses (codes "bob") (some bob_address) tried
              ≡ some addresses)
            × IsPlan (codes "bob") bob_address tried addresses))
resolve_peer_addresses-IsPlan_example =
    resolve_peer_addresses-IsPlan (codes "bob") bob_address tried
