-- ===== src/Endpoint/Plan.antt =====
-- The addresses that a reconnect tries.
use mathlib.Core.List.{append-nil}
use mathlib.Core.Path.{fun_ext}
use go_send.Base.{
  ℕ, ◌≡◌, ◌⊎◌, ◌∙◌, none, not, ◌&&◌, ◌||◌, map, ◌++◌, is_empty, text_eq_refl, Option-cases, refl,
  true, false, List, [], ◌∷◌, some, Text, text_eq_iff, trim_space, Bool-cases, inl, inr, arith,
}
use go_send.Base.Dict.{lookup}
use go_send.Endpoint.Health.{
  discovered_endpoints_for_peer, Endpoints, PeerAddress, clean, endpoint_health_score, sort_ranked,
  sort_endpoints_by_health, known_endpoints, resolve_peer_addresses,
}
use go_send.Endpoint.Ranked.{
  IsRanked, occurs, distinct, contains-occurs, sort_ranked-IsRanked, sort_ranked-occurs,
  sort_ranked-distinct,
}

-- The health score of an address: 0 until a result is counted.
abbrev pub health_of : Text → Endpoints → Text → ℕ
health_of peer e address = elim (lookup peer e.health) [
  | none ↦ 0
  | some scores ↦ elim (lookup address scores) [ none ↦ 0 | some n ↦ n ]
]

-- The addresses on record for a peer: those that discovery found, and the last known one.
abbrev pub on_record : Text → PeerAddress → Endpoints → List Text
on_record peer row e =
    (elim (lookup peer e.discovered) [ none ↦ [] | some found ↦ found ])
    ++ (elim row.last_known [ none ↦ [] | some last ↦ last ∷ [] ])

-- A list of addresses to try: what is tried is what is on record, trimmed and not empty, every
-- address once, the best first.
pub record IsPlan (peer : Text) (row : PeerAddress) (e : Endpoints) (addresses : List Text)
    : Type 0 where
  pub known :
      (x : Text)
      → occurs x addresses ≡ (not (is_empty x) && occurs x (map trim_space (on_record peer row e)))
  pub once : distinct addresses ≡ true
  pub ranked : IsRanked (health_of peer e) addresses

-- What the loop keeps: the trimmed addresses that are not empty and not among those it has seen.
clean-occurs :
    (x : Text) (seen xs : List Text)
    → occurs x (clean seen xs)
      ≡ (not (is_empty x) && not (occurs x seen) && occurs x (map trim_space xs))
unfolding clean
clean-occurs x seen [] = ground arith
clean-occurs x seen (y ∷ ys) =
    let t = trim_space y in
    ground (
      arith,
      text_eq_iff t x,
      contains-occurs t seen,
      clean-occurs x seen ys,
      clean-occurs x (t ∷ seen) ys,
    )

clean-known :
    (x : Text) (xs : List Text)
    → occurs x (clean [] xs) ≡ (not (is_empty x) && occurs x (map trim_space xs))
clean-known x xs = ground (arith, clean-occurs x [] xs)

clean-distinct : (seen xs : List Text) → distinct (clean seen xs) ≡ true
unfolding clean
clean-distinct seen [] = refl
clean-distinct seen (y ∷ ys) =
    let t = trim_space y in
    ground (
      arith,
      text_eq_refl t,
      clean-distinct seen ys,
      clean-distinct (t ∷ seen) ys,
      clean-occurs t (t ∷ seen) ys,
    )

known_endpoints-on_record :
    (peer : Text) (row : PeerAddress) (e : Endpoints)
    → known_endpoints peer row e ≡ on_record peer row e
unfolding known_endpoints discovered_endpoints_for_peer
known_endpoints-on_record peer row e = elim (Option-cases row.last_known) [
  | inl h ↦ ground (arith, h, append-nil (discovered_endpoints_for_peer peer e))
  | inr (last, h) ↦ ground (arith, h)
]

endpoint_health_score-health_of :
    (peer : Text) (e : Endpoints) (x : Text) → endpoint_health_score peer e x ≡ health_of peer e x
unfolding endpoint_health_score lookup
endpoint_health_score-health_of peer e x = elim (Option-cases (lookup peer e.health)) [
  | inl h ↦ ground (arith, h)
  | inr (scores, h) ↦ ground (arith, h)
]

-- For a peer on record, resolvePeerAddresses fails exactly if the peer is barred or no address is
-- on record. Otherwise it gives the discovered endpoints of the peer and its last known address,
-- trimmed and without empty ones, every one once, in the order of their health scores, the best
-- first, and by name where the scores are equal.
pub resolve_peer_addresses-IsPlan :
    (peer : Text) (row : PeerAddress) (e : Endpoints)
    → ((resolve_peer_addresses peer (some row) e ≡ none)
        × (row.is_barred || is_empty (on_record peer row e) ≡ true))
      ⊎ ((row.is_barred || is_empty (on_record peer row e) ≡ false)
          × ((addresses : List Text) × (resolve_peer_addresses peer (some row) e ≡ some addresses)
              × IsPlan peer row e addresses))
unfolding resolve_peer_addresses sort_endpoints_by_health
resolve_peer_addresses-IsPlan peer row e =
    let all = known_endpoints-on_record peer row e in
    elim (Bool-cases (row.is_barred || is_empty (on_record peer row e))) [
      | inl b ↦ inl (ground (arith, b, all), b)
      | inr b ↦
          let score = health_of peer e in
          let kept = clean [] (on_record peer row e) in
          let same : endpoint_health_score peer e ≡ score =
            fun_ext (endpoint_health_score-health_of peer e) in
          inr (
            b,
            (
              sort_ranked score kept,
              rw (all, same) (ground (arith, b)),
              record {
                known = λ x. sort_ranked-occurs score x kept ∙ clean-known x (on_record peer row e);
                once = sort_ranked-distinct score kept ∙ clean-distinct [] (on_record peer row e);
                ranked = sort_ranked-IsRanked score kept;
              },
            ),
          )
    ]
