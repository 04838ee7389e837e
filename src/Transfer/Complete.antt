-- ===== src/Transfer/Complete.antt =====
-- network/file_transfer.go: handleFileComplete and handleFileResponse. `checksum_hex` is the hex
-- text of SHA-256, `join` and `base` are filepath.Join and filepath.Base.
use go_send.Base.{
  ℕ, Bool, false, not, ◌||◌, List, [], ◌∷◌, ◌++◌, Option, none, some, Bytes, Text, codes,
  if◌then◌else◌, is_empty, ltb, length, text_eq, trim_space, to_lower, equal_fold,
}
use go_send.Base.Int.{pos}
use go_send.Base.Dict.{lookup, insert, delete}
use go_send.Crypto.{Primitives, sign, verify_signed}
use go_send.Protocol.{FileResponse, FileComplete}
use go_send.Connection.Secure.{Codec}
use go_send.Connection.Send.{send_message}
use go_send.Storage.Messages.{Stored, done, refused, is_not_found}
use go_send.Storage.Files.{TransferStatus, update_transfer_status, update_file_timestamp_received}
use go_send.Storage.Checkpoints.{Direction, receiving, delete_transfer_checkpoint}
use go_send.Messaging.Session.{unix_milli}
use go_send.Transfer.Node.{
  FileTransferEvent, response, reported, signature_failed, Disk, FileSession, log_file_event,
  FileWire,
}

abbrev pub by_sender : Text
by_sender = codes "transfer canceled by sender"

abbrev pub by_receiver : Text
by_receiver = codes "transfer canceled by receiver"

-- normalizeTransferMessage.
unfoldable pub normalize_transfer_message : Text → Text
normalize_transfer_message message = to_lower (trim_space message)

-- isCancellationResponseMessage.
unfoldable pub is_cancellation_response_message : Text → Bool
unfolding normalize_transfer_message
is_cancellation_response_message message =
    let m = normalize_transfer_message message in
    text_eq m by_sender
    || text_eq m by_receiver
    || text_eq m (codes "transfer cancelled by sender")
    || text_eq m (codes "transfer cancelled by receiver")

-- isCancellationComplete.
unfoldable pub is_cancellation_complete : FileComplete → Bool
unfolding is_cancellation_response_message
is_cancellation_complete m =
    if not (equal_fold (trim_space m.status) (codes "failed"))
    then false
    else is_cancellation_response_message m.message

-- A table write whose error is dropped.
abbrev pub or_same {ℓ} : {A : Type ℓ} → A → Stored A → A
or_same a (done b) = b
or_same a (refused e) = a

-- `_ = UpdateTransferStatus`.
unfoldable pub mark_status : Text → TransferStatus → FileSession → FileSession
mark_status id status s = record s {
  node = record s.node {
    rows = or_same s.node.rows (update_transfer_status id status s.node.rows);
  };
}

-- UpdateFileTimestampReceived, with an error other than ErrNotFound reported.
unfoldable pub mark_received_at : ℕ → Text → FileSession → FileSession
mark_received_at now id s =
    elim (update_file_timestamp_received (pos (unix_milli now)) id (pos (unix_milli now))
      s.node.rows) [
        | done rows ↦ record s { node = record s.node { rows = rows } }
        | refused e ↦ if is_not_found e then s else log_file_event reported s
      ]

-- removeInboundTransfer.
abbrev pub remove_inbound_transfer : Text → FileSession → FileSession
remove_inbound_transfer id s = record s {
  node = record s.node { inbound = delete id s.node.inbound };
}

-- removeTransferCheckpoint.
unfoldable pub remove_transfer_checkpoint : Text → Direction → FileSession → FileSession
remove_transfer_checkpoint id d s =
    if is_empty (trim_space id)
    then s
    else elim (delete_transfer_checkpoint id d s.node.checkpoints) [
      | done rows ↦ record s { node = record s.node { checkpoints = rows } }
      | refused e ↦ log_file_event reported s
    ]

-- os.Rename of a file that exists; none is an error.
unfoldable pub rename : Text → Text → Disk → Option Disk
rename from to disk = elim (lookup from disk.files) [
  | none ↦ none
  | some content ↦
      if disk.writable
      then some (record disk { files = insert to content (delete from disk.files) })
      else none
]

-- A send on a channel of capacity 256 with a default case.
abbrev pub max_file_events : ℕ
max_file_events = 256

abbrev pub offer : FileTransferEvent → List FileTransferEvent → List FileTransferEvent
offer e waiting = if ltb (length waiting) max_file_events then waiting ++ (e ∷ []) else waiting

abbrev pub offer_to : Text → FileTransferEvent → FileSession → FileSession
offer_to id e s = elim (lookup id s.node.event_chans) [
  | none ↦ s
  | some waiting ↦ record s {
    node = record s.node { event_chans = insert id (offer e waiting) s.node.event_chans };
  }
]

module _ (p : Primitives) (c : Codec) (w : FileWire) where
  -- signFileComplete.
  unfoldable pub sign_file_complete : Bytes → FileComplete → Option FileComplete
  sign_file_complete private_key m = elim (w.marshal_complete (record m { signature = [] })) [
    | none ↦ none
    | some raw ↦ elim (sign p private_key raw) [
      | none ↦ none
      | some sig ↦ some (record m { signature = p.b64_encode sig })
    ]
  ]

  -- sendSignedFileComplete, with its error reported.
  unfoldable pub send_file_complete : ℕ → Text → Text → Text → FileSession → FileSession
  unfolding sign_file_complete
  send_file_complete now id status message s =
      elim (sign_file_complete s.node.private_key (record {
        file_id = id;
        status = status;
        message = message;
        timestamp = pos (unix_milli now);
        signature = [];
      })) [
        | none ↦ log_file_event reported s
        | some signed ↦
            let (conn, e) = send_message p c now (w.marshal_complete signed) s.conn in
            let s' = record s { conn = conn } in
            elim e [ none ↦ s' | some x ↦ log_file_event reported s' ]
      ]

  -- verifyFileComplete.
  unfoldable pub verify_file_complete : Text → FileComplete → Bool
  verify_file_complete peer_public_key m =
      if is_empty m.signature
      then false
      else verify_signed p peer_public_key (w.marshal_complete (record m { signature = [] }))
          m.signature

  -- verifyFileResponse.
  unfoldable pub verify_file_response : Text → FileResponse → Bool
  verify_file_response peer_public_key m =
      if is_empty m.signature
      then false
      else verify_signed p peer_public_key (w.marshal_response (record m { signature = [] }))
          m.signature

  -- What the handlers do with a signature that does not verify.
  unfoldable pub refuse_signature : ℕ → Text → Text → Text → FileSession → FileSession
  refuse_signature now peer message related s =
      let s' = log_file_event (signature_failed peer) (log_file_event reported s) in
      record s' {
        conn =
            (send_message p c now
              (w.marshal_error (record {
                code = codes "invalid_signature";
                message = message;
                related_message_id = related;
                supported_versions = [];
                timestamp = pos (unix_milli now);
              }))
              s'.conn).0;
      }

  -- handleFileResponse.
  unfoldable pub handle_file_response : ℕ → FileResponse → FileSession → FileSession
  handle_file_response now r s =
      if is_empty r.file_id
      then s
      else if is_empty r.from_device_id
      then log_file_event reported s
      else if not (text_eq r.from_device_id s.conn.peer_device_id)
      then log_file_event reported s
      else if not (verify_file_response s.conn.peer_public_key r)
      then refuse_signature now r.from_device_id
          (codes "file response signature verification failed") r.file_id s
      else offer_to r.file_id (response r) s

  -- The end of an inbound transfer: its status, its row of the map, its checkpoint, and the answer.
  unfoldable pub end_inbound : ℕ → Text → TransferStatus → Text → Text → FileSession → FileSession
  end_inbound now id status answer message s = send_file_complete now id answer message (
      remove_transfer_checkpoint id receiving
        (remove_inbound_transfer id (mark_status id status s)))
