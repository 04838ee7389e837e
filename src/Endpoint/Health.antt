-- ===== src/Endpoint/Health.antt =====
-- network/peer_manager.go: discovered endpoints, their health scores, and the addresses to dial.
use go_send.Base.{
  ℕ, ◌+◌, ◌-◌, Bool, true, false, ◌||◌, List, [], ◌∷◌, ◌++◌, Option, none, some, Text,
  if◌then◌else◌, is_empty, ltb, ◌==◌, text_eq, text_lt, trim_space,
}
use go_send.Base.Int.{ℤ, pos, negsuc, pos_part, neg_part, is_zero}
use go_send.Base.Dict.{Dict, lookup, insert, delete}

-- discoveredEndpoints and endpointHealth. No score is below 0.
pub record Endpoints : Type 0 where
  pub discovered : Dict (List Text)
  pub health : Dict (Dict ℕ)

abbrev pub contains : Text → List Text → Bool
contains id [] = false
contains id (x ∷ xs) = let rest = contains id xs in if text_eq x id then true else rest

-- The loop that trims endpoints and drops empty and repeated ones; `seen` holds what it kept.
unfoldable pub clean : List Text → List Text → List Text
clean seen [] = []
clean seen (endpoint ∷ rest) =
    let trimmed = trim_space endpoint in
    let skipped = clean seen rest in
    let kept = clean (trimmed ∷ seen) rest in
    if is_empty trimmed then skipped else if contains trimmed seen then skipped else trimmed ∷ kept

-- setDiscoveredEndpoints.
unfoldable pub set_discovered_endpoints : Text → List Text → Endpoints → Endpoints
set_discovered_endpoints peer endpoints e =
    let cleaned = clean [] endpoints in
    if is_empty cleaned
    then record e { discovered = delete peer e.discovered }
    else record e { discovered = insert peer cleaned e.discovered }

-- discoveredEndpointsForPeer.
unfoldable pub discovered_endpoints_for_peer : Text → Endpoints → List Text
discovered_endpoints_for_peer peer e = elim (lookup peer e.discovered) [
  | none ↦ []
  | some endpoints ↦ endpoints
]

abbrev pub scores_of : Text → Endpoints → Dict ℕ
scores_of peer e = elim (lookup peer e.health) [ none ↦ [] | some scores ↦ scores ]

-- endpointHealthScore.
unfoldable pub endpoint_health_score : Text → Endpoints → Text → ℕ
endpoint_health_score peer e endpoint = elim (lookup endpoint (scores_of peer e)) [
  | none ↦ 0
  | some score ↦ score
]

-- adjustEndpointHealth: the subtraction stops at 0.
unfoldable pub adjust_endpoint_health : Text → Text → ℤ → Endpoints → Endpoints
unfolding endpoint_health_score
adjust_endpoint_health peer endpoint delta e =
    if is_empty peer || is_empty endpoint || is_zero delta
    then e
    else (let next = endpoint_health_score peer e endpoint + pos_part delta - neg_part delta in
        record e { health = insert peer (insert endpoint next (scores_of peer e)) e.health })

-- recordEndpointSuccess and recordEndpointFailure.
unfoldable pub record_endpoint_success : Text → Text → Endpoints → Endpoints
record_endpoint_success peer endpoint e = adjust_endpoint_health peer endpoint (pos 1) e

unfoldable pub record_endpoint_failure : Text → Text → Endpoints → Endpoints
record_endpoint_failure peer endpoint e = adjust_endpoint_health peer endpoint (negsuc 0) e

-- The comparison of sortEndpointsByHealth.
unfoldable pub is_before : (Text → ℕ) → Text → Text → Bool
is_before score left right =
    if score left == score right then text_lt left right else ltb (score right) (score left)

-- sort.SliceStable.
unfoldable pub insert_ranked : (Text → ℕ) → Text → List Text → List Text
insert_ranked score x [] = x ∷ []
insert_ranked score x (y ∷ ys) =
    let rest = insert_ranked score x ys in if is_before score y x then y ∷ rest else x ∷ y ∷ ys

unfoldable pub sort_ranked : (Text → ℕ) → List Text → List Text
sort_ranked score [] = []
sort_ranked score (x ∷ xs) = insert_ranked score x (sort_ranked score xs)

-- sortEndpointsByHealth.
unfoldable pub sort_endpoints_by_health : Text → List Text → Endpoints → List Text
sort_endpoints_by_health peer candidates e = sort_ranked (endpoint_health_score peer e) candidates

-- What resolvePeerAddresses reads of the peer's row: whether its status is blocked or pending, and
-- net.JoinHostPort of its last known address.
pub record PeerAddress : Type 0 where
  pub is_barred : Bool
  pub last_known : Option Text

-- The discovered endpoints of a peer, and its last known address.
unfoldable pub known_endpoints : Text → PeerAddress → Endpoints → List Text
known_endpoints peer row e = elim row.last_known [
  | none ↦ discovered_endpoints_for_peer peer e
  | some endpoint ↦ discovered_endpoints_for_peer peer e ++ (endpoint ∷ [])
]

-- resolvePeerAddresses: none is an error.
unfoldable pub resolve_peer_addresses : Text → Option PeerAddress → Endpoints → Option (List Text)
resolve_peer_addresses peer none e = none
resolve_peer_addresses peer (some row) e =
    if row.is_barred
    then none
    else (let candidates = known_endpoints peer row e in
        if is_empty candidates
        then none
        else some (sort_endpoints_by_health peer (clean [] candidates) e))
