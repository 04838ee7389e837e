-- ===== src/Transfer/Accept.antt =====
-- network/file_transfer.go: finalizeInboundFileRequest. The connection of the session is the one that
-- the response goes to: the peer's current connection, or else the one of the request.
use go_send.Base.{
  ℕ, ◌-◌, Bool, true, false, not, ◌++◌, Option, none, some, Bytes, Text, codes, if◌then◌else◌, [],
  length, take, replicate,
}
use go_send.Base.Int.{pos, negsuc}
use go_send.Base.Dict.{lookup, insert}
use go_send.Crypto.{Primitives}
use go_send.Protocol.{FileRequest}
use go_send.Connection.State.{is_disconnected}
use go_send.Connection.Secure.{Codec}
use go_send.Storage.Messages.{done, refused}
use go_send.Storage.Files.{
  TransferStatus, waiting, accepted, rejected, canceled, FileMetadata, get_file_by_id,
}
use go_send.Messaging.Session.{unix_milli}
use go_send.Transfer.Chunks.{chunk_count}
use go_send.Transfer.Node.{
  InboundFileTransfer, reported, Disk, FileNode, FileSession, log_file_event, FileWire, respond,
}
use go_send.Transfer.Receive.{set_inbound, maybe_persist_inbound_checkpoint}
use go_send.Transfer.Complete.{by_sender, mark_status}
use go_send.Transfer.Finish.{upsert_file_metadata}
use go_send.Transfer.Decisions.{
  recent_file_decision_ttl, remember_file_decision, clear_recent_file_decision,
}

-- os.Truncate.
abbrev pub truncate : ℕ → Bytes → Bytes
truncate size content = take size (content ++ replicate (size - length content) 0)

-- os.OpenFile with O_CREATE: the file is there afterwards, with the content that it had.
unfoldable pub create_file : Text → Disk → Disk
create_file path disk =
    let old : Bytes = elim (lookup path disk.files) [ none ↦ [] | some content ↦ content ] in
    if disk.writable then record disk { files = insert path old disk.files } else disk

-- os.OpenFile with O_CREATE, then os.Truncate: none is an error.
unfoldable pub prepare_temp_file : Text → ℕ → Disk → Option Disk
prepare_temp_file path size disk =
    let old : Bytes = elim (lookup path disk.files) [ none ↦ [] | some content ↦ content ] in
    if disk.writable
    then some (record disk { files = insert path (truncate size old) disk.files })
    else none

-- The row of the files table.
abbrev pub request_row : FileRequest → Text → Text → Text → TransferStatus → FileMetadata
request_row r folder_id relative_path final_path status = record {
  file_id = r.file_id;
  message_id = [];
  folder_id = folder_id;
  relative_path = relative_path;
  from_device_id = r.from_device_id;
  to_device_id = r.to_device_id;
  filename = r.filename;
  filesize = r.filesize;
  filetype = r.filetype;
  stored_path = final_path;
  checksum = r.checksum;
  timestamp_received = none;
  transfer_status = status;
}

-- The transfer of an accepted request.
abbrev pub new_inbound : FileRequest → ℕ → ℕ → Text → InboundFileTransfer
new_inbound r size chunk_size final_path = record {
  file_id = r.file_id;
  from_device_id = r.from_device_id;
  filename = r.filename;
  filesize = size;
  filetype = r.filetype;
  checksum = r.checksum;
  chunk_size = chunk_size;
  total_chunks = chunk_count size chunk_size;
  temp_path = final_path ++ codes ".part";
  final_path = final_path;
  received_chunks = [];
  next_chunk = 0;
  bytes_received = 0;
  checkpoint_chunk = 0;
  checkpoint_bytes = 0;
}

abbrev pub set_node : FileNode → FileSession → FileSession
set_node node s = record s { node = node }

-- upsertFileMetadata, with its error reported.
unfoldable pub save_row : FileMetadata → FileSession → FileSession
save_row row s = elim (upsert_file_metadata s.node.has_message row s.node.rows) [
  | done rows ↦ record s { node = record s.node { rows = rows } }
  | refused e ↦ log_file_event reported s
]

module _ (p : Primitives) (c : Codec) (w : FileWire) where
  -- The responses.
  unfoldable pub send_response : ℕ → Text → Text → ℕ → Text → FileSession → FileSession
  send_response now file_id status resume_from message s =
      if is_disconnected s.conn.state
      then s
      else respond p c w now
          (record {
            file_id = file_id;
            status = status;
            from_device_id = s.node.device_id;
            chunk_index = pos 0;
            resume_from_chunk = pos resume_from;
            message = message;
            timestamp = pos (unix_milli now);
            signature = [];
          })
          s

  -- The request is rejected.
  unfoldable pub reject_request :
      ℕ → FileRequest → Text → Text → Text → Text → FileSession → FileSession
  reject_request now r folder_id relative_path final_path message s =
      let remembered =
        remember_file_decision now r.file_id false (recent_file_decision_ttl s.node) s.node in
      let s' = set_node remembered s in
      let row = request_row r folder_id relative_path final_path rejected in
      let send = λ (x : FileSession). send_response now r.file_id (codes "rejected") 0 message x in
      elim (upsert_file_metadata s'.node.has_message row s'.node.rows) [
        | done rows ↦
            send
              (mark_status r.file_id rejected (record s' { node = record s'.node { rows = rows } }))
        | refused e ↦ send (log_file_event reported s')
      ]

  -- The transfer starts once its temporary file is there.
  unfoldable pub start_inbound :
      ℕ → FileRequest → ℕ → Text → Text → Text → FileSession → FileSession
  start_inbound now r size folder_id relative_path final_path s =
      let t = new_inbound r size s.node.file_chunk_size final_path in
      elim (prepare_temp_file t.temp_path size s.node.disk) [
        | none ↦ log_file_event reported s
        | some disk ↦
            let s1 = set_inbound t (record s { node = record s.node { disk = disk } }) in
            let s2 = save_row (request_row r folder_id relative_path final_path waiting) s1 in
            send_response now r.file_id (codes "accepted") t.next_chunk []
              (mark_status r.file_id accepted (maybe_persist_inbound_checkpoint now t true s2))
      ]

  -- The request is accepted, unless it was canceled in the meantime.
  unfoldable pub accept_request : ℕ → FileRequest → Text → Text → Text → FileSession → FileSession
  unfolding start_inbound
  accept_request now r folder_id relative_path final_path s =
      let s' = set_node (clear_recent_file_decision r.file_id s.node) s in
      let start : FileSession = elim r.filesize [
        -- os.Truncate refuses the size once the file was made.
        | negsuc n ↦
            let disk = create_file (final_path ++ codes ".part") s'.node.disk in
            log_file_event reported (record s' { node = record s'.node { disk = disk } })
        | pos size ↦ start_inbound now r size folder_id relative_path final_path s'
      ] in
      let stop =
        send_response now r.file_id (codes "rejected") 0 by_sender
          (mark_status r.file_id canceled s') in
      elim (get_file_by_id r.file_id s'.node.rows) [
        | none ↦ start
        | some row ↦ elim row.transfer_status [ canceled ↦ stop | _ ↦ start ]
      ]

  -- finalizeInboundFileRequest.
  unfoldable pub finalize_inbound_file_request :
      ℕ → FileRequest → Text → Text → Text → Bool → Text → FileSession → FileSession
  unfolding reject_request accept_request
  finalize_inbound_file_request now r folder_id relative_path final_path accept message s =
      if not accept
      then reject_request now r folder_id relative_path final_path message s
      else accept_request now r folder_id relative_path final_path s
