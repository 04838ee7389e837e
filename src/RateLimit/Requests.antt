-- ===== src/RateLimit/Requests.antt =====
-- allowAddRequest and allowFileRequest. Times are nanoseconds of one clock that does not go back; a
-- cooldown, a limit or a window of 0 stands for one that is not positive.
use go_send.Base.{
  ℕ, ◌+◌, Bool, true, false, not, ◌&&◌, ◌||◌, List, [], ◌∷◌, ◌++◌, Option, none, some, Text,
  is_empty, trim_space, ltb, leb, ◌==◌, if◌then◌else◌, length, select,
}
use go_send.Base.Dict.{Dict, lookup, insert, keep_keys, delete}

-- The maps of PeerManager that the two functions use.
pub record RateLimits : Type 0 where
  pub last_add_request_at : Dict ℕ
  pub file_request_history : Dict (List ℕ)
  pub file_request_seen_ids : Dict (Dict ℕ)

-- allowAddRequest.
unfoldable pub allow_add_request : ℕ → Text → ℕ → RateLimits → RateLimits × Bool
allow_add_request cooldown peer now r =
    if is_empty peer
    then (r, false)
    else if cooldown == 0
    then (r, true)
    else (let allowed : RateLimits × Bool =
          (record r { last_add_request_at = insert peer now r.last_add_request_at }, true) in
        elim (lookup peer r.last_add_request_at) [
          | none ↦ allowed
          | some last ↦ if ltb now (last + cooldown) then (r, false) else allowed
        ])

-- seenAt.After(now - window).
abbrev pub is_recent_request : ℕ → ℕ → ℕ → Bool
is_recent_request window now seen_at = ltb now (seen_at + window)

-- `m[k]` of a map of slices or of maps: nil for a missing key.
abbrev pub list_at {ℓ} : {A : Type ℓ} → Option (List A) → List A
list_at none = []
list_at (some xs) = xs

-- `_, exists := m[k]`.
abbrev pub is_known : Option ℕ → Bool
is_known none = false
is_known (some at) = true

-- The history of a peer without what left the window.
unfoldable pub recent_history : ℕ → ℕ → Text → RateLimits → List ℕ
recent_history window now peer r =
    select (is_recent_request window now) (list_at (lookup peer r.file_request_history))

-- The file IDs of a peer that are still in the window.
unfoldable pub is_recent_file : ℕ → ℕ → Dict ℕ → Text → Bool
is_recent_file window now seen id = elim (lookup id seen) [
  | none ↦ true
  | some seen_at ↦ is_recent_request window now seen_at
]

unfoldable pub recent_files : ℕ → ℕ → Text → RateLimits → Dict ℕ
unfolding is_recent_file
recent_files window now peer r =
    let seen = list_at (lookup peer r.file_request_seen_ids) in
    keep_keys (is_recent_file window now seen) seen

-- The map entry of the peer after the pruning: deleted once it is empty.
unfoldable pub set_files : Text → Dict ℕ → Dict (Dict ℕ) → Dict (Dict ℕ)
set_files peer files m = if is_empty files then delete peer m else insert peer files m

-- allowFileRequest.
unfoldable pub allow_file_request : ℕ → ℕ → Text → Text → ℕ → RateLimits → RateLimits × Bool
unfolding set_files
allow_file_request limit window peer file_id now r =
    if is_empty peer
    then (r, false)
    else if limit == 0 || window == 0
    then (r, true)
    else (let filtered = recent_history window now peer r in
        let file = trim_space file_id in
        let files = recent_files window now peer r in
        let kept = record r {
          file_request_history = insert peer filtered r.file_request_history;
          file_request_seen_ids =
              if is_empty file
              then r.file_request_seen_ids
              else set_files peer files r.file_request_seen_ids;
        } in
        if not (is_empty file) && is_known (lookup file files)
        then (
          record kept {
            file_request_seen_ids = insert peer (insert file now files) kept.file_request_seen_ids;
          },
          true,
        )
        else if leb limit (length filtered)
        then (kept, false)
        else (
          record kept {
            file_request_history = insert peer (filtered ++ (now ∷ [])) r.file_request_history;
            file_request_seen_ids =
                if is_empty file
                then r.file_request_seen_ids
                else insert peer (insert file now files) kept.file_request_seen_ids;
          },
          true,
        ))
