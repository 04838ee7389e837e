-- ===== src/Examples/Checkpointed.antt =====
-- The checkpoints of transfers at concrete inputs.
use go_send.Base.{◌≡◌, refl, ◌&&◌, [], ◌∷◌, codes, text_eq, is_empty, if◌then◌else◌}
use go_send.Base.Int.{ℤ, pos}
use go_send.Storage.Messages.{done, refused, required, not_found}
use go_send.Storage.Checkpoints.{
  receiving, TransferCheckpoint, is_row_of, direction_eq, put_checkpoint,
  upsert_transfer_checkpoint, delete_transfer_checkpoint, get_transfer_checkpoint,
  get_transfer_checkpoint-writes,
}

abbrev checkpoint : ℤ → TransferCheckpoint
checkpoint at = record {
  file_id = codes "f1";
  direction = receiving;
  next_chunk = pos 2;
  bytes_transferred = pos 4;
  temp_path = codes "d.part";
  updated_at = at;
}

checkpoint_written :
    upsert_transfer_checkpoint (pos 9) (checkpoint (pos 0)) [] ≡ done (checkpoint (pos 9) ∷ [])
unfolding upsert_transfer_checkpoint put_checkpoint
checkpoint_written = refl

checkpoint_deleted : delete_transfer_checkpoint (codes "f1") receiving [] ≡ done []
unfolding delete_transfer_checkpoint
checkpoint_deleted = refl

get_transfer_checkpoint-writes_example :
    (get_transfer_checkpoint (codes "f1") receiving (checkpoint (pos 9) ∷ []) ≡ (
      if is_row_of (codes "f1") receiving (checkpoint (pos 0))
      then done (checkpoint (pos 9))
      else get_transfer_checkpoint (codes "f1") receiving []))
    × (get_transfer_checkpoint (codes "f1") receiving [] ≡ (
        if is_empty (codes "f1")
        then refused required
        else if text_eq (codes "f1") (codes "f1") && direction_eq receiving receiving
        then refused not_found
        else get_transfer_checkpoint (codes "f1") receiving []))
get_transfer_checkpoint-writes_example =
    get_transfer_checkpoint-writes (pos 9) (checkpoint (pos 0)) [] (checkpoint (pos 9) ∷ []) []
      (codes "f1") receiving checkpoint_written checkpoint_deleted (codes "f1") receiving
