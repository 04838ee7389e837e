-- ===== src/Storage/Folders.antt =====
-- storage/files.go: the folder_transfers table, one row for a folder ID.
use go_send.Base.{
  not, ◌||◌, List, [], ◌∷◌, Option, none, some, Text, if◌then◌else◌, is_empty, text_eq,
}
use go_send.Base.Int.{ℤ, pos, is_zero}
use go_send.Storage.Messages.{required, invalid, not_found, Stored, done, refused, ltb_ℤ, is_some}
use go_send.Storage.Files.{TransferStatus}

pub record FolderTransfer : Type 0 where
  pub folder_id : Text
  pub from_device_id : Text
  pub to_device_id : Text
  pub folder_name : Text
  pub root_path : Text
  pub total_files : ℤ
  pub total_size : ℤ
  pub transfer_status : TransferStatus
  pub timestamp : ℤ

unfoldable pub find_folder : Text → List FolderTransfer → Option FolderTransfer
find_folder id [] = none
find_folder id (f ∷ rows) =
    let rest = find_folder id rows in if text_eq f.folder_id id then some f else rest

-- The INSERT with its ON CONFLICT(folder_id) clause.
unfoldable pub put_folder : FolderTransfer → List FolderTransfer → List FolderTransfer
put_folder f [] = f ∷ []
put_folder f (g ∷ rows) =
    if text_eq g.folder_id f.folder_id then f ∷ rows else g ∷ put_folder f rows

-- UpsertFolderTransfer with a status that is known to be valid; `now` is nowUnixMilli.
unfoldable pub upsert_folder_transfer :
    ℤ → FolderTransfer → List FolderTransfer → Stored (List FolderTransfer)
upsert_folder_transfer now f rows =
    if is_empty f.folder_id || is_empty f.folder_name || is_empty f.root_path
    then refused required
    else if ltb_ℤ f.total_files (pos 0) || ltb_ℤ f.total_size (pos 0)
    then refused invalid
    else done (
        put_folder (record f { timestamp = if is_zero f.timestamp then now else f.timestamp }) rows)

unfoldable pub set_folder_status : Text → TransferStatus → List FolderTransfer → List FolderTransfer
set_folder_status id s [] = []
set_folder_status id s (f ∷ rows) =
    (if text_eq f.folder_id id then record f { transfer_status = s } else f)
    ∷ set_folder_status id s rows

-- UpdateFolderTransferStatus with a status that is known to be valid.
unfoldable pub update_folder_transfer_status :
    Text → TransferStatus → List FolderTransfer → Stored (List FolderTransfer)
update_folder_transfer_status id s rows =
    if is_empty id
    then refused required
    else if not (is_some (find_folder id rows))
    then refused not_found
    else done (set_folder_status id s rows)

-- GetFolderTransfer.
unfoldable pub get_folder_transfer : Text → List FolderTransfer → Stored FolderTransfer
get_folder_transfer id rows =
    if is_empty id
    then refused required
    else elim (find_folder id rows) [ none ↦ refused not_found | some f ↦ done f ]
