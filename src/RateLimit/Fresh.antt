-- ===== src/RateLimit/Fresh.antt =====
-- How many file requests a window admits.
use go_send.Base.{
  ℕ, ◌⊎◌, ◌+◌, ◌≤◌, ◌<◌, ◌≡◌, Bool, true, false, ◌&&◌, ◌||◌, not, List, [], ◌∷◌, ◌++◌, none, some,
  Text, is_empty, text_eq, text_eq_refl, trim_space, ltb, leb, ◌==◌, if◌then◌else◌, length, select,
  drop-length-append, Bool-cases, Option-cases, inl, inr, arith,
}
use go_send.Base.Dict.{
  Dict, lookup, insert, lookup-insert, lookup-insert_self, lookup-keep_keys, lookup-delete,
}
use go_send.RateLimit.Requests.{
  RateLimits, list_at, is_known, recent_history, is_recent_file, recent_files, set_files,
  allow_file_request,
}
use go_send.RateLimit.Window.{in_stretch, DoesNotGoBack, appended, slots, slots_bounded}

-- Whether a request for this file was admitted less than a window before now; the log holds the
-- file IDs and the times of the admitted requests.
abbrev pub admitted_lately : ℕ → ℕ → Text → List (Text × ℕ) → Bool
admitted_lately window now file [] = false
admitted_lately window now file ((id, at) ∷ log) =
    (text_eq id file && ltb now (at + window)) || admitted_lately window now file log

-- The times of the requests that the limiter admits although no request for the same file was
-- admitted less than a window before; a request without a file ID is always counted.
unfoldable pub fresh_times : ℕ → ℕ → Text → List (Text × ℕ) → List (Text × ℕ) → RateLimits → List ℕ
fresh_times limit window peer [] log r = []
fresh_times limit window peer ((file, now) ∷ requests) log r =
    let (r', ok) = allow_file_request limit window peer file now r in
    let id = trim_space file in
    let rest = fresh_times limit window peer requests (if ok then (id, now) ∷ log else log) r' in
    if ok && (is_empty id || not (admitted_lately window now id log)) then now ∷ rest else rest

abbrev is_logged : Text → ℕ → List (Text × ℕ) → Bool
is_logged file time [] = false
is_logged file time ((id, at) ∷ log) = (text_eq id file && at == time) || is_logged file time log

-- What the limiter remembers of a peer's files was admitted.
IsLogged : Text → List (Text × ℕ) → RateLimits → Type 0
IsLogged peer log r =
    (id : Text) (at : ℕ)
    → lookup id (list_at (lookup peer r.file_request_seen_ids)) ≡ some at
    → is_logged id at log ≡ true

logged_lately :
    (window now at : ℕ) (file : Text) (log : List (Text × ℕ))
    → is_logged file at log ≡ true
    → now < at + window
    → admitted_lately window now file log ≡ true
logged_lately window now at file [] h l = absurd (ground (arith, h))
logged_lately window now at file ((id, time) ∷ log) h l =
    ground (arith, h, l, logged_lately window now at file log)

-- A file that the limiter knows was admitted lately.
known_lately :
    (window now : ℕ) (peer id : Text) (log : List (Text × ℕ)) (r : RateLimits)
    → IsLogged peer log r
    → is_known (lookup id (recent_files window now peer r)) ≡ true
    → admitted_lately window now id log ≡ true
unfolding recent_files is_recent_file IsLogged
known_lately window now peer id log r h k =
    let seen = list_at (lookup peer r.file_request_seen_ids) in
    let kept = lookup-keep_keys (is_recent_file window now seen) id seen in
    elim (Option-cases (lookup id seen)) [
      | inl e ↦ absurd (ground (arith, k, kept, e))
      | inr (at, e) ↦ logged_lately window now at id log (h id at e) (ground (arith, k, kept, e))
    ]

-- An admitted request that is not for a file admitted lately takes a slot.
fresh-appended :
    (limit window now : ℕ) (peer file : Text) (log : List (Text × ℕ)) (r : RateLimits)
    → is_empty peer ≡ false
    → 0 < limit
    → 0 < window
    → IsLogged peer log r
    → (allow_file_request limit window peer file now r).1 ≡ true
    → (is_empty (trim_space file) || not (admitted_lately window now (trim_space file) log)) ≡ true
    → appended limit window peer file now r ≡ now ∷ []
unfolding appended allow_file_request
fresh-appended limit window now peer file log r n l w h ok fresh =
    let recent = recent_history window now peer r in
    let id = trim_space file in
    elim (Bool-cases (is_known (lookup id (recent_files window now peer r)))) [
      | inl k ↦ ground (
        arith,
        n,
        l,
        w,
        k,
        ok,
        fresh,
        known_lately window now peer id log r h k,
        lookup-insert_self peer (recent ++ (now ∷ [])) r.file_request_history,
        drop-length-append recent (now ∷ []),
      )
      | inr k ↦ ground (
        arith,
        n,
        l,
        w,
        k,
        ok,
        lookup-insert_self peer (recent ++ (now ∷ [])) r.file_request_history,
        drop-length-append recent (now ∷ []),
      )
    ]

-- What is remembered after the pruning was remembered before.
files-lookup :
    (window now at : ℕ) (peer j : Text) (r : RateLimits)
    → lookup j (recent_files window now peer r) ≡ some at
    → lookup j (list_at (lookup peer r.file_request_seen_ids)) ≡ some at
unfolding recent_files
files-lookup window now at peer j r h =
    let seen = list_at (lookup peer r.file_request_seen_ids) in
    ground (arith, h, lookup-keep_keys (is_recent_file window now seen) j seen)

set_files-lookup :
    (at : ℕ) (peer j : Text) (files : Dict ℕ) (m : Dict (Dict ℕ))
    → lookup j (list_at (lookup peer (set_files peer files m))) ≡ some at
    → lookup j files ≡ some at
unfolding set_files lookup
set_files-lookup at peer j files m h = elim (Bool-cases (is_empty files)) [
  | inl e ↦ absurd (ground (arith, h, e, lookup-delete peer peer m, text_eq_refl peer))
  | inr e ↦ ground (arith, h, e, lookup-insert_self peer files m)
]

-- What is remembered after a request was remembered before, or it is this request, admitted.
allow_file_request-seen :
    (limit window now at : ℕ) (peer file j : Text) (r : RateLimits)
    → is_empty peer ≡ false
    → 0 < limit
    → 0 < window
    → let (r', ok) = allow_file_request limit window peer file now r in
      lookup j (list_at (lookup peer r'.file_request_seen_ids)) ≡ some at
      → (lookup j (list_at (lookup peer r.file_request_seen_ids)) ≡ some at)
        ⊎ ((ok ≡ true) × (text_eq (trim_space file) j ≡ true) × (at ≡ now))
unfolding allow_file_request
allow_file_request-seen limit window now at peer file j r n l w h =
    let id = trim_space file in
    let files = recent_files window now peer r in
    let added = insert id now files in
    let kept = set_files peer files r.file_request_seen_ids in
    let old = files-lookup window now at peer j r in
    let self = lookup-insert_self peer added kept in
    let entry = lookup-insert id j now files in
    elim (Bool-cases (is_empty id)) [
      | inl e ↦ inl (ground (arith, n, l, w, h, e))
      | inr e ↦ elim (Bool-cases (is_known (lookup id files))) [
        | inl k ↦ elim (Bool-cases (text_eq id j)) [
          | inl s ↦ inr (ground (arith, n, l, w, h, e, k, s, self, entry))
          | inr s ↦ inl (old (ground (arith, n, l, w, h, e, k, s, self, entry)))
        ]
        | inr k ↦ elim (Bool-cases (leb limit (length (recent_history window now peer r)))) [
          | inl f ↦ inl (
              old (
                set_files-lookup at peer j files r.file_request_seen_ids
                  (ground (arith, n, l, w, h, e, k, f))))
          | inr f ↦ elim (Bool-cases (text_eq id j)) [
            | inl s ↦ inr (ground (arith, n, l, w, h, e, k, f, s, self, entry))
            | inr s ↦ inl (old (ground (arith, n, l, w, h, e, k, f, s, self, entry)))
          ]
        ]
      ]
    ]

-- One request keeps the log right.
allow_file_request-IsLogged :
    (limit window now : ℕ) (peer file : Text) (log : List (Text × ℕ)) (r : RateLimits)
    → is_empty peer ≡ false
    → 0 < limit
    → 0 < window
    → IsLogged peer log r
    → let (r', ok) = allow_file_request limit window peer file now r in
      IsLogged peer (if ok then (trim_space file, now) ∷ log else log) r'
unfolding IsLogged
allow_file_request-IsLogged limit window now peer file log r n l w h j at e =
    elim (allow_file_request-seen limit window now at peer file j r n l w e) [
      | inl old ↦ ground (arith, h j at old)
      | inr (ok, same, time) ↦ ground (arith, ok, same, time)
    ]

select-append_le :
    (p : ℕ → Bool) (xs ys : List ℕ) → length (select p ys) ≤ length (select p (xs ++ ys))
select-append_le p [] ys = omega arith
select-append_le p (x ∷ xs) ys = ground (arith, select-append_le p xs ys)

-- The counted requests are no more than the slots.
fresh-slots :
    (limit window t : ℕ) (peer : Text) (requests log : List (Text × ℕ)) (r : RateLimits)
    → is_empty peer ≡ false
    → 0 < limit
    → 0 < window
    → IsLogged peer log r
    → length (select (in_stretch window t) (fresh_times limit window peer requests log r))
      ≤ length (select (in_stretch window t) (slots limit window peer requests r))
unfolding fresh_times slots
fresh-slots limit window t peer [] log r n l w h = omega arith
fresh-slots limit window t peer ((file, now) ∷ requests) log r n l w h =
    let call = allow_file_request limit window peer file now r in
    let id = trim_space file in
    let log' = if call.1 then (id, now) ∷ log else log in
    let rest =
      fresh-slots limit window t peer requests log' call.0 n l w
        (allow_file_request-IsLogged limit window now peer file log r n l w h) in
    let took = appended limit window peer file now r in
    let more =
      select-append_le (in_stretch window t) took (slots limit window peer requests call.0) in
    elim (Bool-cases (call.1 && (is_empty id || not (admitted_lately window now id log)))) [
      | inl e ↦
          let one =
            fresh-appended limit window now peer file log r n l w h (ground (arith, e))
              (ground (arith, e)) in
          rw (e, one) (ground (arith, rest))
      | inr e ↦ rw e (omega (arith, rest, more))
    ]

-- Whatever file requests a named peer makes, at times that do not go back, when the limiter holds
-- nothing of the peer: in no stretch of time of the window's length does it admit more requests
-- than the limit, not counting those for a file that was admitted less than a window before.
pub fresh_bounded :
    (limit window now : ℕ) (peer : Text) (requests : List (Text × ℕ)) (r : RateLimits)
    → is_empty peer ≡ false
    → 0 < limit
    → 0 < window
    → DoesNotGoBack now requests
    → lookup peer r.file_request_history ≡ none
    → lookup peer r.file_request_seen_ids ≡ none
    → (t : ℕ)
    → length (select (in_stretch window t) (fresh_times limit window peer requests [] r)) ≤ limit
unfolding IsLogged lookup
fresh_bounded limit window now peer requests r n l w d e s t =
    let slots_few = slots_bounded limit window now peer requests r n l w d e t in
    let none_logged : IsLogged peer [] r = λ id at h. absurd (ground (arith, s, h)) in
    let few = fresh-slots limit window t peer requests [] r n l w none_logged in
    omega (arith, few, slots_few)
