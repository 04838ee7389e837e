-- ===== src/Transfer/Finish.antt =====
-- network/file_transfer.go: handleFileComplete.
use go_send.Base.{
  ℕ, Bool, true, false, not, ◌&&◌, List, [], none, some, Bytes, Text, codes, if◌then◌else◌,
  is_empty, ◌==◌, text_eq, trim_space, equal_fold,
}
use go_send.Base.Int.{ℤ, pos}
use go_send.Base.Dict.{lookup, insert}
use go_send.Crypto.{Primitives}
use go_send.Protocol.{FileComplete}
use go_send.Connection.Secure.{Codec}
use go_send.Storage.Messages.{StoreError, constraint, Stored, done, refused, is_some}
use go_send.Storage.Files.{
  complete, failed, canceled, FileMetadata, get_file_by_id, save_file_metadata,
}
use go_send.Storage.Checkpoints.{sending, receiving}
use go_send.Transfer.Node.{
  InboundFileTransfer, OutboundFileTransfer, completion, reported, progress, FileSession,
  log_file_event, FileWire,
}
use go_send.Transfer.Complete.{
  by_sender, is_cancellation_complete, mark_status, mark_received_at, remove_inbound_transfer,
  remove_transfer_checkpoint, rename, offer_to, send_file_complete, verify_file_complete,
  refuse_signature, end_inbound,
}

abbrev is_constraint : StoreError → Bool
is_constraint constraint = true
is_constraint _ = false

-- upsertFileMetadata: a row that is there already is no error.
unfoldable pub upsert_file_metadata :
    (Text → Bool) → FileMetadata → List FileMetadata → Stored (List FileMetadata)
upsert_file_metadata has_message f rows = elim (save_file_metadata has_message f rows) [
  | done rows' ↦ done rows'
  | refused e ↦
      if is_constraint e && is_some (get_file_by_id f.file_id rows) then done rows else refused e
]

-- What handleFileComplete takes from outside: the hex text of SHA-256, and the path
-- filepath.Join(dir, prefixedFilename(id, name)).
pub record FileSystem : Type 0 where
  pub checksum_hex : Bytes → Text
  pub stored_path : Text → Text → Text → Text

module _ (p : Primitives) (c : Codec) (w : FileWire) (fs : FileSystem) where
  -- recordInboundCanceledBeforeApproval: the row that it adds.
  unfoldable pub canceled_row : Text → FileSession → FileMetadata
  canceled_row id s = record {
    file_id = id;
    message_id = [];
    folder_id = [];
    relative_path = [];
    from_device_id = trim_space s.conn.peer_device_id;
    to_device_id = s.node.device_id;
    filename = id;
    filesize = pos 0;
    filetype = [];
    stored_path = fs.stored_path s.node.download_directory id id;
    checksum = codes "canceled-before-approval";
    timestamp_received = none;
    transfer_status = canceled;
  }

  -- recordInboundCanceledBeforeApproval.
  unfoldable pub record_canceled_before_approval : FileComplete → FileSession → FileSession
  unfolding canceled_row upsert_file_metadata
  record_canceled_before_approval m s =
      let id = trim_space m.file_id in
      let end = λ (size : ℤ) (x : FileSession).
        log_file_event (progress id 0 size canceled) (mark_status id canceled x) in
      if is_empty id then s else elim (get_file_by_id id s.node.rows) [
        | some row ↦ end row.filesize s
        | none ↦ elim (upsert_file_metadata s.node.has_message (canceled_row id s) s.node.rows) [
          | done rows ↦ end (pos 0) (record s { node = record s.node { rows = rows } })
          | refused e ↦ end (pos 0) (log_file_event reported s)
        ]
      ]

  -- A completion that comes after the sender stopped waiting for it.
  unfoldable pub complete_late : ℕ → FileComplete → OutboundFileTransfer → FileSession → FileSession
  complete_late now m o s =
      if text_eq m.status (codes "complete") && o.bytes_sent == o.filesize && not o.done
      then (let o' = record o { done = true; running = false } in
          let s' = record s {
            node = record s.node { outbound = insert m.file_id o' s.node.outbound };
          } in
          log_file_event (progress o.file_id o.filesize (pos o.filesize) complete) (
            remove_transfer_checkpoint o.file_id sending
              (mark_received_at now o.file_id (mark_status o.file_id complete s'))))
      else s

  -- handleFileComplete when no transfer of this ID is on its way in.
  unfoldable pub complete_outbound : ℕ → FileComplete → FileSession → FileSession
  unfolding record_canceled_before_approval complete_late
  complete_outbound now m s =
      if is_some (lookup m.file_id s.node.event_chans)
      then offer_to m.file_id (completion m) s
      else if is_cancellation_complete m
      then record_canceled_before_approval m s
      else elim (lookup m.file_id s.node.outbound) [ none ↦ s | some o ↦ complete_late now m o s ]

  -- The sender gave up or canceled.
  unfoldable pub fail_inbound : ℕ → FileComplete → InboundFileTransfer → FileSession → FileSession
  fail_inbound now m t s =
      let canceled_by_sender = is_cancellation_complete m in
      let status = if canceled_by_sender then canceled else failed in
      log_file_event (progress m.file_id t.bytes_received (pos t.filesize) status) (
        end_inbound p c w now m.file_id status (codes "failed")
          (if canceled_by_sender then by_sender else codes "sender marked transfer failed") s)

  -- The file is whole: the last steps once it has its final name.
  unfoldable pub accept_inbound : ℕ → FileComplete → InboundFileTransfer → FileSession → FileSession
  accept_inbound now m t s =
      log_file_event (progress m.file_id t.filesize (pos t.filesize) complete) (
        send_file_complete p c w now m.file_id (codes "complete") [] (
          remove_transfer_checkpoint m.file_id receiving (
            remove_inbound_transfer m.file_id
              (mark_received_at now m.file_id (mark_status m.file_id complete s)))))

  -- The checksum of the temporary file decides.
  unfoldable pub finalize_inbound :
      ℕ → FileComplete → InboundFileTransfer → FileSession → FileSession
  unfolding accept_inbound
  finalize_inbound now m t s =
      let fail = λ (message : Text) (x : FileSession).
        end_inbound p c w now m.file_id failed (codes "failed") message x in
      elim (lookup t.temp_path s.node.disk.files) [
        | none ↦ fail (codes "checksum verification failed") (log_file_event reported s)
        | some content ↦
            if not (equal_fold (fs.checksum_hex content) t.checksum)
            then fail (codes "checksum mismatch") s
            else elim (rename t.temp_path t.final_path s.node.disk) [
              | none ↦ fail (codes "finalize file failed") (log_file_event reported s)
              | some disk ↦
                  accept_inbound now m t (record s { node = record s.node { disk = disk } })
            ]
      ]

  -- handleFileComplete.
  unfoldable pub handle_file_complete : ℕ → FileComplete → FileSession → FileSession
  unfolding complete_outbound fail_inbound finalize_inbound
  handle_file_complete now m s =
      if is_empty m.file_id
      then s
      else if not (verify_file_complete p c w s.conn.peer_public_key m)
      then refuse_signature p c w now s.conn.peer_device_id
          (codes "file complete signature verification failed") m.file_id s
      else elim (lookup m.file_id s.node.inbound) [
        | none ↦ complete_outbound now m s
        | some t ↦
            if text_eq m.status (codes "complete")
            then finalize_inbound now m t s
            else fail_inbound now m t s
      ]
