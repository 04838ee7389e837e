-- ===== src/Storage/Checkpoints.antt =====
-- storage/files.go: the transfer_checkpoints table, one row for a file and a direction.
use go_send.Base.{
  ◌≡◌, ◌↔◌, refl, Bool, true, false, not, ◌&&◌, ◌||◌, List, [], ◌∷◌, Option, none, some, Text,
  codes, if◌then◌else◌, is_empty, text_eq, text_eq_iff, select, arith,
}
use go_send.Base.Int.{ℤ, pos, is_zero}
use go_send.Storage.Messages.{required, invalid, not_found, Stored, done, refused, ltb_ℤ}

pub data Direction : Type 0 where
  sending receiving : Direction

-- validateTransferDirection, with the value that it admits.
unfoldable pub parse_direction : Text → Option Direction
parse_direction s =
    if text_eq s (codes "send")
    then some sending
    else if text_eq s (codes "receive")
    then some receiving
    else none

abbrev pub direction_eq : Direction → Direction → Bool
direction_eq sending sending = true
direction_eq receiving receiving = true
direction_eq _ _ = false

pub record TransferCheckpoint : Type 0 where
  pub file_id : Text
  pub direction : Direction
  pub next_chunk : ℤ
  pub bytes_transferred : ℤ
  pub temp_path : Text
  pub updated_at : ℤ

abbrev pub is_row_of : Text → Direction → TransferCheckpoint → Bool
is_row_of id d k = text_eq k.file_id id && direction_eq k.direction d

-- The INSERT with its ON CONFLICT(file_id, direction) clause.
unfoldable pub put_checkpoint :
    TransferCheckpoint → List TransferCheckpoint → List TransferCheckpoint
put_checkpoint k [] = k ∷ []
put_checkpoint k (j ∷ rows) =
    if is_row_of k.file_id k.direction j then k ∷ rows else j ∷ put_checkpoint k rows

-- UpsertTransferCheckpoint with a valid direction; `now` is nowUnixMilli.
unfoldable pub upsert_transfer_checkpoint :
    ℤ → TransferCheckpoint → List TransferCheckpoint → Stored (List TransferCheckpoint)
upsert_transfer_checkpoint now k rows =
    if is_empty k.file_id
    then refused required
    else if ltb_ℤ k.next_chunk (pos 0) || ltb_ℤ k.bytes_transferred (pos 0)
    then refused invalid
    else done (
        put_checkpoint
          (record k { updated_at = if is_zero k.updated_at then now else k.updated_at }) rows)

-- DeleteTransferCheckpoint with a valid direction: no row to delete is no error.
unfoldable pub delete_transfer_checkpoint :
    Text → Direction → List TransferCheckpoint → Stored (List TransferCheckpoint)
delete_transfer_checkpoint id d rows =
    if is_empty id then refused required else done (select (λ k. not (is_row_of id d k)) rows)

unfoldable pub find_checkpoint :
    Text → Direction → List TransferCheckpoint → Option TransferCheckpoint
find_checkpoint id d [] = none
find_checkpoint id d (k ∷ rows) =
    let rest = find_checkpoint id d rows in if is_row_of id d k then some k else rest

-- GetTransferCheckpoint with a valid direction.
unfoldable pub get_transfer_checkpoint :
    Text → Direction → List TransferCheckpoint → Stored TransferCheckpoint
get_transfer_checkpoint id d rows =
    if is_empty id
    then refused required
    else elim (find_checkpoint id d rows) [ none ↦ refused not_found | some k ↦ done k ]

direction_eq_iff : (a b : Direction) → (direction_eq a b ≡ true) ↔ (a ≡ b)
direction_eq_iff sending sending = ground arith
direction_eq_iff receiving receiving = ground arith
direction_eq_iff sending receiving = ground arith
direction_eq_iff receiving sending = ground arith

find-put :
    (k : TransferCheckpoint) (id : Text) (d : Direction) (rows : List TransferCheckpoint)
    → find_checkpoint id d (put_checkpoint k rows)
      ≡ (if is_row_of id d k then some k else find_checkpoint id d rows)
unfolding find_checkpoint put_checkpoint
find-put k id d [] = refl
find-put k id d (j ∷ rows) = ground (
  arith,
  find-put k id d rows,
  text_eq_iff j.file_id k.file_id,
  text_eq_iff j.file_id id,
  text_eq_iff k.file_id id,
  direction_eq_iff j.direction k.direction,
  direction_eq_iff j.direction d,
  direction_eq_iff k.direction d,
)

find-delete :
    (i id : Text) (e d : Direction) (rows : List TransferCheckpoint)
    → find_checkpoint id d (select (λ k. not (is_row_of i e k)) rows)
      ≡ (if text_eq i id && direction_eq e d then none else find_checkpoint id d rows)
unfolding find_checkpoint
find-delete i id e d [] = ground arith
find-delete i id e d (j ∷ rows) = ground (
  arith,
  find-delete i id e d rows,
  text_eq_iff j.file_id i,
  text_eq_iff j.file_id id,
  text_eq_iff i id,
  direction_eq_iff j.direction e,
  direction_eq_iff j.direction d,
  direction_eq_iff e d,
)

-- After an upsert that succeeds, the checkpoint of its file and direction is the one written, with
-- the current time in place of a missing one, and every other checkpoint reads as before; after a
-- deletion that succeeds, the checkpoint of that file and direction is not found, and every other
-- reads as before.
pub get_transfer_checkpoint-writes :
    (now : ℤ) (k : TransferCheckpoint) (rows up down : List TransferCheckpoint) (i : Text)
    (e : Direction)
    → upsert_transfer_checkpoint now k rows ≡ done up
    → delete_transfer_checkpoint i e rows ≡ done down
    → (id : Text) (d : Direction)
    → (get_transfer_checkpoint id d up ≡ (
        if is_row_of id d k
        then done (record k { updated_at = if is_zero k.updated_at then now else k.updated_at })
        else get_transfer_checkpoint id d rows))
      × (get_transfer_checkpoint id d down ≡ (
          if is_empty id
          then refused required
          else if text_eq i id && direction_eq e d
          then refused not_found
          else get_transfer_checkpoint id d rows))
unfolding get_transfer_checkpoint upsert_transfer_checkpoint delete_transfer_checkpoint
get_transfer_checkpoint-writes now k rows up down i e h g id d =
    let at = if is_zero k.updated_at then now else k.updated_at in
    let put = find-put (record k { updated_at = at }) id d rows in
    let del = find-delete i id e d rows in
    (ground (arith, h, put, text_eq_iff k.file_id id), ground (arith, g, del))
