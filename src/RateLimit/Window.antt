-- ===== src/RateLimit/Window.antt =====
-- The window of file requests slides: no stretch of its length holds more slots than the limit.
use mathlib.Core.List.{append_assoc, append-nil}
use go_send.Base.{
  none, ℕ, ◌+◌, ◌≤◌, ◌<◌, ◌≡◌, ◌⊎◌, ◌∙◌, sym, ap, inl, inr, refl, Bool, false, ◌&&◌, not, List, [],
  ◌∷◌, ◌++◌, Text, is_empty, trim_space, ltb, leb, if◌then◌else◌, length, drop, select,
  drop-length-append, length-append, Bool-cases, arith,
}
use go_send.Base.Dict.{lookup, lookup-insert_self}
use go_send.RateLimit.Requests.{
  RateLimits, is_recent_request, list_at, is_known, recent_history, recent_files,
  allow_file_request,
}

-- The times of a list in the stretch of this length from t on.
abbrev pub in_stretch : ℕ → ℕ → ℕ → Bool
in_stretch window t s = leb t s && ltb s (t + window)

drop-length : (xs : List ℕ) → drop (length xs) xs ≡ []
drop-length [] = refl
drop-length (x ∷ xs) = drop-length xs

select-recent :
    (w n n' : ℕ) (xs : List ℕ)
    → n ≤ n'
    → select (is_recent_request w n') (select (is_recent_request w n) xs)
      ≡ select (is_recent_request w n') xs
select-recent w n n' [] h = refl
select-recent w n n' (x ∷ xs) h = ground (arith, select-recent w n n' xs h)

select-snoc :
    (p : ℕ → Bool) (xs : List ℕ) (y : ℕ)
    → select p (xs ++ (y ∷ [])) ≡ (if p y then select p xs ++ (y ∷ []) else select p xs)
select-snoc p [] y = ground arith
select-snoc p (x ∷ xs) y = ground (arith, select-snoc p xs y)

stretch_recent :
    (w t u : ℕ) (xs : List ℕ)
    → u < t + w
    → length (select (in_stretch w t) xs) ≤ length (select (is_recent_request w u) xs)
stretch_recent w t u [] h = omega arith
stretch_recent w t u (x ∷ xs) h = ground (arith, stretch_recent w t u xs h)

-- `log` holds the times of all slots so far, `history` what the limiter remembers at `now`.
record IsTracked (limit window now : ℕ) (log history : List ℕ) : Type 0 where
  tracks :
      (n : ℕ)
      → now ≤ n
      → select (is_recent_request window n) log ≡ select (is_recent_request window n) history
  bounded : (t : ℕ) → length (select (in_stretch window t) log) ≤ limit

IsTracked-keep :
    (limit window now u : ℕ) (log history : List ℕ)
    → IsTracked limit window now log history
    → now ≤ u
    → IsTracked limit window u log (select (is_recent_request window u) history)
IsTracked-keep limit window now u log history h le = record {
  tracks = λ n l. h.tracks n (omega arith) ∙ sym (select-recent window u n history l);
  bounded = h.bounded;
}

snoc_bounded :
    (limit window now u t : ℕ) (log history : List ℕ)
    → IsTracked limit window now log history
    → now ≤ u
    → length (select (is_recent_request window u) history) < limit
    → length (select (in_stretch window t) (log ++ (u ∷ []))) ≤ limit
snoc_bounded limit window now u t log history h le room =
    elim (Bool-cases (in_stretch window t u)) [
      | inl e ↦
          let near = stretch_recent window t u log (ground (arith, e)) in
          let same = ap (length {A = ℕ}) (h.tracks u le) in
          rw (select-snoc (in_stretch window t) log u, e)
            (omega (arith, near, same, length-append (select (in_stretch window t) log) (u ∷ [])))
      | inr e ↦ rw (select-snoc (in_stretch window t) log u, e) (h.bounded t)
    ]

snoc_tracks :
    (limit window now u n : ℕ) (log history : List ℕ)
    → IsTracked limit window now log history
    → now ≤ u
    → u ≤ n
    → select (is_recent_request window n) (log ++ (u ∷ []))
      ≡ select
          (is_recent_request window n)
          (select (is_recent_request window u) history ++ (u ∷ []))
snoc_tracks limit window now u n log history h le l =
    let a = select-snoc (is_recent_request window n) log u in
    let b =
      select-snoc (is_recent_request window n) (select (is_recent_request window u) history) u in
    rw (a, b, h.tracks n (omega arith), select-recent window u n history l) refl

-- What one request of a named peer does to its history: it is pruned, and it grows by the time of
-- the request only if there was room.
allow_file_request-history :
    (limit window : ℕ) (peer file : Text) (now : ℕ) (r : RateLimits)
    → is_empty peer ≡ false
    → 0 < limit
    → 0 < window
    → let recent = recent_history window now peer r in
      let r' = (allow_file_request limit window peer file now r).0 in
      let history = list_at (lookup peer r'.file_request_history) in
      (history ≡ recent) ⊎ ((history ≡ recent ++ (now ∷ [])) × (length recent < limit))
unfolding allow_file_request
allow_file_request-history limit window peer file now r n l w =
    let recent = recent_history window now peer r in
    elim (Bool-cases (
      not (is_empty (trim_space file))
      && is_known (lookup (trim_space file) (recent_files window now peer r)))) [
        | inl e ↦ inl (ground (arith, e, lookup-insert_self peer recent r.file_request_history))
        | inr e ↦ elim (Bool-cases (leb limit (length recent))) [
          | inl f ↦
              inl (ground (arith, e, f, lookup-insert_self peer recent r.file_request_history))
          | inr f ↦ inr (
            ground (
              arith,
              e,
              f,
              lookup-insert_self peer (recent ++ (now ∷ [])) r.file_request_history,
            ),
            ground (arith, f),
          )
        ]
      ]

-- What a request appended to the history.
unfoldable pub appended : ℕ → ℕ → Text → Text → ℕ → RateLimits → List ℕ
appended limit window peer file now r =
    drop (length (recent_history window now peer r)) (
      list_at
        (lookup peer (allow_file_request limit window peer file now r).0.file_request_history))

-- The times at which the requests of a peer, each a file ID and a time, took a slot.
unfoldable pub slots : ℕ → ℕ → Text → List (Text × ℕ) → RateLimits → List ℕ
unfolding appended
slots limit window peer [] r = []
slots limit window peer ((file, now) ∷ requests) r =
    appended limit window peer file now r
    ++ slots limit window peer requests (allow_file_request limit window peer file now r).0

-- The times do not go back.
abbrev pub DoesNotGoBack : ℕ → List (Text × ℕ) → Type 0
DoesNotGoBack now [] = Unit {0}
DoesNotGoBack now ((file, at) ∷ requests) = (now ≤ at) × DoesNotGoBack at requests

history_of : Text → RateLimits → List ℕ
history_of peer r = list_at (lookup peer r.file_request_history)

-- One request keeps track.
appended-IsTracked :
    (limit window now u : ℕ) (peer file : Text) (log : List ℕ) (r : RateLimits)
    → is_empty peer ≡ false
    → 0 < limit
    → 0 < window
    → now ≤ u
    → IsTracked limit window now log (history_of peer r)
    → IsTracked limit window u
        (log ++ appended limit window peer file u r)
        (history_of peer (allow_file_request limit window peer file u r).0)
unfolding appended history_of recent_history
appended-IsTracked limit window now u peer file log r n l w le h =
    let history = list_at (lookup peer r.file_request_history) in
    let recent = recent_history window u peer r in
    elim (allow_file_request-history limit window peer file u r n l w) [
      | inl e ↦
          rw (e, drop-length recent, append-nil log)
            (IsTracked-keep limit window now u log history h le)
      | inr (e, room) ↦
          rw (e, drop-length-append recent (u ∷ []))
            (record {
              tracks = λ n l. snoc_tracks limit window now u n log history h le l;
              bounded = λ t. snoc_bounded limit window now u t log history h le room;
            })
    ]

slots-IsTracked :
    (limit window now : ℕ) (peer : Text) (log : List ℕ) (requests : List (Text × ℕ))
    (r : RateLimits)
    → is_empty peer ≡ false
    → 0 < limit
    → 0 < window
    → DoesNotGoBack now requests
    → IsTracked limit window now log (history_of peer r)
    → (t : ℕ)
    → length (select (in_stretch window t) (log ++ slots limit window peer requests r)) ≤ limit
unfolding slots
slots-IsTracked limit window now peer log [] r n l w s h t = rw (append-nil log) (h.bounded t)
slots-IsTracked limit window now peer log ((file, at) ∷ requests) r n l w s h t =
    rw
      (sym (
        append_assoc log (appended limit window peer file at r)
          (slots limit window peer requests (allow_file_request limit window peer file at r).0)))
      (slots-IsTracked limit window at peer (log ++ appended limit window peer file at r) requests
        (allow_file_request limit window peer file at r).0 n l w s.1
        (appended-IsTracked limit window now at peer file log r n l w s.0 h) t)

-- Whatever file requests a named peer makes from an empty history, at times that do not go back:
-- no stretch of time of the window's length holds more of the slots it took than the limit.
pub slots_bounded :
    (limit window now : ℕ) (peer : Text) (requests : List (Text × ℕ)) (r : RateLimits)
    → is_empty peer ≡ false
    → 0 < limit
    → 0 < window
    → DoesNotGoBack now requests
    → lookup peer r.file_request_history ≡ none
    → (t : ℕ) → length (select (in_stretch window t) (slots limit window peer requests r)) ≤ limit
unfolding history_of
slots_bounded limit window now peer requests r n l w s e t =
    slots-IsTracked limit window now peer [] requests r n l w s
      (rw e (record { tracks = λ n l. refl; bounded = λ t. omega arith })) t
