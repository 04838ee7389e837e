-- ===== src/Storage/Seen.antt =====
-- storage/seen_ids.go: the table of message IDs seen, for replay protection.
use go_send.Base.{
  ℕ, ◌≡◌, Bool, true, false, Option, none, some, Text, if◌then◌else◌, is_empty, leb, ◌==◌, arith,
}
use go_send.Base.Dict.{
  Dict, lookup, insert, keep_keys, lookup-insert, lookup-keep_keys, lookup-insert_self,
}

abbrev pub SeenIds : Type 0
SeenIds = Dict ℕ

-- InsertSeenID; none is the error for an empty ID. `now` is nowUnixMilli.
unfoldable pub insert_seen_id : ℕ → Text → ℕ → SeenIds → Option SeenIds
insert_seen_id now message_id received_at seen =
    if is_empty message_id
    then none
    else some (insert message_id (if received_at == 0 then now else received_at) seen)

-- HasSeenID; none is the error for an empty ID.
unfoldable pub has_seen_id : Text → SeenIds → Option Bool
has_seen_id message_id seen =
    if is_empty message_id
    then none
    else some (elim (lookup message_id seen) [ none ↦ false | some _ ↦ true ])

-- `DELETE ... WHERE received_at < cutoff` keeps these IDs.
unfoldable pub is_recent : ℕ → SeenIds → Text → Bool
is_recent cutoff seen id = elim (lookup id seen) [ none ↦ true | some at ↦ leb cutoff at ]

-- PruneOldEntries; none is the error for a cutoff of 0.
unfoldable pub prune_old_entries : ℕ → SeenIds → Option SeenIds
unfolding is_recent
prune_old_entries cutoff seen =
    if leb cutoff 0 then none else some (keep_keys (is_recent cutoff seen) seen)

-- An ID that was inserted is seen, from then on and through every insertion of another ID.
pub has_seen_id-insert :
    (now at at' : ℕ) (id other : Text) (seen seen' seen'' : SeenIds)
    → insert_seen_id now id at seen ≡ some seen'
    → insert_seen_id now other at' seen' ≡ some seen''
    → has_seen_id id seen'' ≡ some true
unfolding insert_seen_id has_seen_id
has_seen_id-insert now at at' id other seen seen' seen'' h k = ground (
  arith,
  lookup-insert_self id (if at == 0 then now else at) seen,
  lookup-insert other id (if at' == 0 then now else at') seen',
)

-- Pruning forgets an ID exactly if it was received before the cutoff.
pub has_seen_id-prune :
    (cutoff at : ℕ) (id : Text) (seen seen' : SeenIds)
    → is_empty id ≡ false
    → lookup id seen ≡ some at
    → prune_old_entries cutoff seen ≡ some seen'
    → has_seen_id id seen' ≡ some (leb cutoff at)
unfolding has_seen_id prune_old_entries
has_seen_id-prune cutoff at id seen seen' n h k =
    ground (arith, lookup-keep_keys (is_recent cutoff seen) id seen)
