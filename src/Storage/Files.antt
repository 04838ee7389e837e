-- ===== src/Storage/Files.antt =====
-- storage/files.go: the files table. Rows stand in the order of insertion; an empty text is what the
-- table keeps as NULL.
use go_send.Base.{
  ℕ, Bool, true, false, not, ◌||◌, List, [], ◌∷◌, ◌++◌, Option, none, some, Text, codes,
  if◌then◌else◌, is_empty, text_eq, select, length,
}
use go_send.Base.Int.{ℤ, pos}
use go_send.Storage.Messages.{
  required, not_found, constraint, Stored, done, refused, ltb_ℤ, is_some,
}

-- The CHECK values of transfer_status.
pub data TransferStatus : Type 0 where
  waiting accepted rejected complete failed canceled : TransferStatus

-- validateTransferStatus, with the value that it admits.
unfoldable pub parse_transfer_status : Text → Option TransferStatus
parse_transfer_status s =
    if text_eq s (codes "pending")
    then some waiting
    else if text_eq s (codes "accepted")
    then some accepted
    else if text_eq s (codes "rejected")
    then some rejected
    else if text_eq s (codes "complete")
    then some complete
    else if text_eq s (codes "failed")
    then some failed
    else if text_eq s (codes "canceled")
    then some canceled
    else none

abbrev pub is_complete : TransferStatus → Bool
is_complete complete = true
is_complete _ = false

pub record FileMetadata : Type 0 where
  pub file_id : Text
  pub message_id : Text
  pub folder_id : Text
  pub relative_path : Text
  pub from_device_id : Text
  pub to_device_id : Text
  pub filename : Text
  pub filesize : ℤ
  pub filetype : Text
  pub stored_path : Text
  pub checksum : Text
  pub timestamp_received : Option ℤ
  pub transfer_status : TransferStatus

-- GetFileByID: none is ErrNotFound.
unfoldable pub get_file_by_id : Text → List FileMetadata → Option FileMetadata
get_file_by_id id [] = none
get_file_by_id id (f ∷ rows) =
    let rest = get_file_by_id id rows in if text_eq f.file_id id then some f else rest

-- SaveFileMetadata with a status that is known to be valid. `has_message` is the messages table as
-- the REFERENCES constraint sees it.
unfoldable pub save_file_metadata :
    (Text → Bool) → FileMetadata → List FileMetadata → Stored (List FileMetadata)
save_file_metadata has_message f rows =
    if is_empty f.file_id || is_empty f.filename || is_empty f.stored_path || is_empty f.checksum
    then refused required
    else if is_some (get_file_by_id f.file_id rows)
        || not (is_empty f.message_id || has_message f.message_id)
    then refused constraint
    else done (rows ++ (f ∷ []))

-- `UPDATE files SET transfer_status = ? WHERE file_id = ?`.
unfoldable pub set_transfer_status : Text → TransferStatus → List FileMetadata → List FileMetadata
set_transfer_status id s [] = []
set_transfer_status id s (f ∷ rows) =
    (if text_eq f.file_id id then record f { transfer_status = s } else f)
    ∷ set_transfer_status id s rows

-- UpdateTransferStatus with a status that is known to be valid.
unfoldable pub update_transfer_status :
    Text → TransferStatus → List FileMetadata → Stored (List FileMetadata)
update_transfer_status id s rows =
    if is_empty id
    then refused required
    else if not (is_some (get_file_by_id id rows))
    then refused not_found
    else done (set_transfer_status id s rows)

-- `UPDATE files SET timestamp_received = ? WHERE file_id = ?`.
unfoldable pub set_timestamp_received : Text → ℤ → List FileMetadata → List FileMetadata
set_timestamp_received id at [] = []
set_timestamp_received id at (f ∷ rows) =
    (if text_eq f.file_id id then record f { timestamp_received = some at } else f)
    ∷ set_timestamp_received id at rows

-- UpdateFileTimestampReceived; `now` is nowUnixMilli.
unfoldable pub update_file_timestamp_received :
    ℤ → Text → ℤ → List FileMetadata → Stored (List FileMetadata)
update_file_timestamp_received now id at rows =
    if is_empty id
    then refused required
    else if not (is_some (get_file_by_id id rows))
    then refused not_found
    else done (set_timestamp_received id (if ltb_ℤ (pos 0) at then at else now) rows)

-- DeleteFileMetadata.
unfoldable pub delete_file_metadata : Text → List FileMetadata → Stored (List FileMetadata)
delete_file_metadata id rows =
    if is_empty id
    then refused required
    else if not (is_some (get_file_by_id id rows))
    then refused not_found
    else done (select (λ f. not (text_eq f.file_id id)) rows)

abbrev pub is_file_of : Text → FileMetadata → Bool
is_file_of peer_id f = text_eq f.from_device_id peer_id || text_eq f.to_device_id peer_id

-- DeleteFileMetadataForPeer, with the number of rows.
unfoldable pub delete_file_metadata_for_peer :
    Text → List FileMetadata → Stored (List FileMetadata × ℕ)
delete_file_metadata_for_peer peer_id rows =
    if is_empty peer_id
    then refused required
    else done
        (select (λ f. not (is_file_of peer_id f)) rows, length (select (is_file_of peer_id) rows))
