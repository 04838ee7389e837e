-- ===== src/Discovery/Replay.antt =====
-- What a listener that follows the events of the scanner knows.
use go_send.Base.{
  ℕ, ◌+◌, ◌≤◌, ◌≡◌, refl, sym, ap, ◌∙◌, Bool, true, false, List, [], ◌∷◌, ◌++◌, Option, none, some,
  Text, if◌then◌else◌, length, length-append, text_eq, text_eq_iff, Bool-cases, Option-cases, inl,
  inr, arith,
}
use mathlib.Core.List.{append-nil, append_assoc}
use go_send.Base.Int.{eqb_ℤ_sound}
use go_send.Base.Dict.{Dict, lookup, insert, delete, lookup-insert, lookup-delete, lookup-keep_keys}
use go_send.Discovery.Snapshot.{
  DiscoveredPeer, DiscoveryEvent, upserted, removed, PeerScanner, addresses_equal, peers_equal,
  max_events, emit_event, emit_all, is_known_peer, upserts, overwrite, stays, removals,
  apply_snapshot,
}

-- The listener's map after an event.
unfoldable pub follow : DiscoveryEvent → Dict DiscoveredPeer → Dict DiscoveredPeer
follow (upserted p) view = insert p.device_id p view
follow (removed p) view = delete p.device_id view

unfoldable pub replay : List DiscoveryEvent → Dict DiscoveredPeer → Dict DiscoveredPeer
replay [] view = view
replay (e ∷ es) view = replay es (follow e view)

replay-append :
    (xs ys : List DiscoveryEvent) (view : Dict DiscoveredPeer)
    → replay (xs ++ ys) view ≡ replay ys (replay xs view)
unfolding replay
replay-append [] ys view = refl
replay-append (x ∷ xs) ys view = replay-append xs ys (follow x view)

-- The description of a peer, without the time it was last seen.
abbrev pub description : DiscoveredPeer → DiscoveredPeer
description p = record p { last_seen = none }

abbrev pub described : Option DiscoveredPeer → Option DiscoveredPeer
described none = none
described (some p) = some (description p)

addresses_equal_sound : (xs ys : List Text) → addresses_equal xs ys ≡ true → xs ≡ ys
unfolding addresses_equal
addresses_equal_sound [] [] h = refl
addresses_equal_sound [] (y ∷ ys) h = absurd (ground (arith, h))
addresses_equal_sound (x ∷ xs) [] h = absurd (ground (arith, h))
addresses_equal_sound (x ∷ xs) (y ∷ ys) h =
    ground (arith, h, text_eq_iff x y, addresses_equal_sound xs ys)

peers_equal_sound : (a b : DiscoveredPeer) → peers_equal a b ≡ true → description a ≡ description b
unfolding peers_equal
peers_equal_sound a b h = ground (
  arith,
  h,
  text_eq_iff a.device_id b.device_id,
  text_eq_iff a.device_name b.device_name,
  text_eq_iff a.discovery_token b.discovery_token,
  text_eq_iff a.host_name b.host_name,
  eqb_ℤ_sound a.version b.version,
  eqb_ℤ_sound a.port b.port,
  addresses_equal_sound a.addresses b.addresses,
)

-- The entries stand under the IDs of their peers, and none twice.
abbrev pub IsPeerMap : Dict DiscoveredPeer → Type 0
IsPeerMap [] = Unit
IsPeerMap ((id, p) ∷ m) = (p.device_id ≡ id) × (lookup id m ≡ none) × IsPeerMap m

lookup-overwrite :
    (j : Text) (merged next : Dict DiscoveredPeer)
    → IsPeerMap next
    → lookup j (overwrite merged next)
      ≡ elim (lookup j next) [ none ↦ lookup j merged | some p ↦ some p ]
unfolding overwrite lookup
lookup-overwrite j merged [] h = refl
lookup-overwrite j merged ((id, p) ∷ next) (named, new, rest) = ground (
  arith,
  new,
  text_eq_iff id j,
  lookup-overwrite j (insert id p merged) next rest,
  lookup-insert id j p merged,
)

lookup-upserts :
    (j : Text) (previous next view : Dict DiscoveredPeer)
    → IsPeerMap next
    → lookup j (replay (upserts previous next) view) ≡ elim (lookup j next) [
      | none ↦ lookup j view
      | some p ↦ if is_known_peer previous j p then lookup j view else some p
    ]
unfolding upserts lookup replay follow
lookup-upserts j previous [] view h = refl
lookup-upserts j previous ((id, p) ∷ next) view (named, new, rest) = ground (
  arith,
  named,
  new,
  text_eq_iff id j,
  lookup-upserts j previous next view rest,
  lookup-upserts j previous next (insert id p view) rest,
  lookup-insert id j p view,
)

-- The entries stand under the IDs of their peers.
abbrev pub IsKeyed : Dict DiscoveredPeer → Type 0
IsKeyed [] = Unit
IsKeyed ((id, p) ∷ m) = (p.device_id ≡ id) × IsKeyed m

insert-IsKeyed :
    (id : Text) (p : DiscoveredPeer) (m : Dict DiscoveredPeer)
    → p.device_id ≡ id
    → IsKeyed m
    → IsKeyed (insert id p m)
unfolding insert
insert-IsKeyed id p [] named h = (named, tt)
insert-IsKeyed id p ((j, q) ∷ m) named (k, h) = elim (Bool-cases (text_eq j id)) [
  | inl e ↦ rw (insert, e) (named, h)
  | inr e ↦ rw (insert, e) (k, insert-IsKeyed id p m named h)
]

overwrite-IsKeyed :
    (m next : Dict DiscoveredPeer) → IsKeyed m → IsPeerMap next → IsKeyed (overwrite m next)
unfolding overwrite
overwrite-IsKeyed m [] h k = h
overwrite-IsKeyed m ((id, p) ∷ next) h (named, new, rest) =
    overwrite-IsKeyed (insert id p m) next (insert-IsKeyed id p m named h) rest

lookup-removals :
    (j : Text) (stay : Text → Bool) (m view : Dict DiscoveredPeer)
    → IsKeyed m
    → lookup j (replay (removals stay m) view) ≡ (
        if stay j
        then lookup j view
        else elim (lookup j m) [ none ↦ lookup j view | some p ↦ none ])
unfolding removals lookup replay follow
lookup-removals j stay [] view h = ground arith
lookup-removals j stay ((id, p) ∷ m) view (named, rest) = ground (
  arith,
  named,
  text_eq_iff id j,
  text_eq_iff j id,
  lookup-removals j stay m view rest,
  lookup-removals j stay m (delete id view) rest,
  lookup-delete id j view,
)

-- With room in the channel every event gets there.
emit_all-room :
    (es events : List DiscoveryEvent)
    → length events + length es ≤ max_events
    → emit_all es events ≡ events ++ es
unfolding emit_all emit_event
emit_all-room [] events h = sym (append-nil events)
emit_all-room (e ∷ es) events h =
    let grown = length-append events (e ∷ []) in
    let here : emit_event e events ≡ events ++ (e ∷ []) = ground (arith, h) in
    ap (emit_all es) here
    ∙ (emit_all-room es (events ++ (e ∷ [])) (omega (arith, grown, h))
        ∙ append_assoc events (e ∷ []) es)

emit_all-append :
    (xs ys events : List DiscoveryEvent)
    → emit_all (xs ++ ys) events ≡ emit_all ys (emit_all xs events)
unfolding emit_all
emit_all-append [] ys events = refl
emit_all-append (x ∷ xs) ys events = emit_all-append xs ys (emit_event x events)

-- A peer whose description is known is described as before.
known-described :
    (previous : Dict DiscoveredPeer) (id : Text) (p : DiscoveredPeer)
    → is_known_peer previous id p ≡ true
    → described (lookup id previous) ≡ described (some p)
unfolding is_known_peer
known-described previous id p h = elim (Option-cases (lookup id previous)) [
  | inl e ↦ absurd (ground (arith, e, h))
  | inr (old, e) ↦ ground (arith, e, h, peers_equal_sound old p)
]

-- After the loop over the new snapshot the listener describes what the scanner has merged.
upserts-described :
    (j : Text) (previous next view : Dict DiscoveredPeer)
    → IsPeerMap next
    → described (lookup j view) ≡ described (lookup j previous)
    → described (lookup j (replay (upserts previous next) view))
      ≡ described (lookup j (overwrite previous next))
upserts-described j previous next view k same =
    let seen = lookup-upserts j previous next view k in
    let merged = lookup-overwrite j previous next k in
    elim (Option-cases (lookup j next)) [
      | inl e ↦ ground (arith, e, seen, merged, same)
      | inr (p, e) ↦ elim (Bool-cases (is_known_peer previous j p)) [
        | inl known ↦
            ground (arith, e, known, seen, merged, same, known-described previous j p known)
        | inr new ↦ ground (arith, e, new, seen, merged)
      ]
    ]

-- What stays is there.
stays-merged :
    (now stale_after : ℕ) (next merged : Dict DiscoveredPeer) (j : Text)
    → lookup j next ≡ none
    → lookup j merged ≡ none
    → stays now stale_after next merged j ≡ false
unfolding stays
stays-merged now stale next merged j h k = ground (arith, h, k)

-- A listener that knew the descriptions of the peers, and follows the events that a snapshot puts
-- into the channel, knows the descriptions of the peers afterwards: what it has under an ID is what
-- the scanner has, but for the time the peer was last seen. The events fit into the channel, and the
-- maps hold every peer under its own ID.
pub replay-apply_snapshot :
    (now stale_after : ℕ) (next view : Dict DiscoveredPeer) (s : PeerScanner)
    → IsKeyed s.peers
    → IsPeerMap next
    → ((j : Text) → described (lookup j view) ≡ described (lookup j s.peers))
    → let s' = apply_snapshot now stale_after next s in
      let merged = overwrite s.peers next in
      let emitted = upserts s.peers next ++ removals (stays now stale_after next merged) merged in
      length s.events + length emitted ≤ max_events
      → (s'.events ≡ s.events ++ emitted)
        × ((j : Text) → described (lookup j (replay emitted view)) ≡ described (lookup j s'.peers))
unfolding apply_snapshot
replay-apply_snapshot now stale next view s h k same room =
    let merged = overwrite s.peers next in
    let stay = stays now stale next merged in
    let ups = upserts s.peers next in
    let downs = removals stay merged in
    (
      sym (emit_all-append ups downs s.events) ∙ emit_all-room (ups ++ downs) s.events room,
      λ j. rw (replay-append ups downs view) (
          ground (
            arith,
            upserts-described j s.peers next view k (same j),
            lookup-removals j stay merged (replay ups view) (overwrite-IsKeyed s.peers next h k),
            stays-merged now stale next merged j,
            lookup-keep_keys stay j merged,
          )),
    )
