-- ===== src/Transfer/Receive.antt =====
-- network/file_transfer.go: handleFileData.
use go_send.Base.{
  ℕ, zero, suc, ◌+◌, ◌-◌, ◌*◌, Bool, false, not, ◌&&◌, ◌||◌, List, [], ◌∷◌, Option, none, some,
  Bytes, Text, codes, if◌then◌else◌, is_empty, ltb, ◌==◌, length, has,
}
use go_send.Base.Int.{ℤ, pos, negsuc}
use go_send.Base.Dict.{lookup, insert}
use go_send.Crypto.{Primitives, decrypt}
use go_send.Protocol.{FileResponse, FileData}
use go_send.Connection.Secure.{Codec}
use go_send.Storage.Messages.{done, refused}
use go_send.Storage.Files.{accepted}
use go_send.Storage.Checkpoints.{receiving, upsert_transfer_checkpoint}
use go_send.Messaging.Session.{unix_milli}
use go_send.Transfer.Chunks.{write_at}
use go_send.Transfer.Node.{
  InboundFileTransfer, reported, progress, Disk, FileSession, log_file_event, FileWire,
  sign_file_response, deliver, respond,
}

abbrev pub inbound_checkpoint_chunk_interval : ℕ
inbound_checkpoint_chunk_interval = 10

abbrev pub inbound_checkpoint_byte_interval : ℕ
inbound_checkpoint_byte_interval = 2 * 1024 * 1024

-- A chunk index that is neither negative nor past the last chunk.
abbrev pub chunk_at : InboundFileTransfer → ℤ → Option ℕ
chunk_at t (pos n) = if ltb n t.total_chunks then some n else none
chunk_at t (negsuc n) = none

-- `chunkSize > 0 && len(plaintext) != chunkSize`.
abbrev pub is_mismatch : ℤ → ℕ → Bool
is_mismatch (pos n) size = not (n == 0) && not (n == size)
is_mismatch (negsuc n) size = false

-- The content of a chunk, or the message of the chunk_nack.
pub data Opened : Type 0 where
  opened : Bytes → Opened
  nack : Text → Opened

-- The loop over NextChunk, on fuel.
unfoldable pub advance : ℕ → List ℕ → ℕ → ℕ
advance zero received next = next
advance (suc fuel) received next =
    let rest = advance fuel received (next + 1) in if has next received then rest else next

-- A chunk that is new is marked and counted.
unfoldable pub mark_received : ℕ → ℕ → InboundFileTransfer → InboundFileTransfer
mark_received index size t = if has index t.received_chunks then t else record t {
  received_chunks = index ∷ t.received_chunks;
  bytes_received = t.bytes_received + size;
  next_chunk = advance (t.total_chunks + 1) (index ∷ t.received_chunks) t.next_chunk;
}

-- The file after the write: none is an error, with the message of the chunk_nack.
pub data Written : Type 0 where
  written : Disk → Written
  unwritten : Text → Written

unfoldable pub write_chunk : InboundFileTransfer → ℕ → Bytes → Disk → Written
write_chunk t index plaintext disk = elim (lookup t.temp_path disk.files) [
  | none ↦ unwritten (codes "open temp file failed")
  | some content ↦
      if disk.writable
      then written (record disk {
        files = insert t.temp_path (write_at content plaintext (index * t.chunk_size)) disk.files;
      })
      else unwritten (codes "write chunk failed")
]

abbrev pub set_inbound : InboundFileTransfer → FileSession → FileSession
set_inbound t s = record s { node = record s.node { inbound = insert t.file_id t s.node.inbound } }

-- Whether a checkpoint is due.
unfoldable pub is_inbound_due : Bool → InboundFileTransfer → Bool
is_inbound_due force t =
    force
    || not (ltb (t.next_chunk - t.checkpoint_chunk) inbound_checkpoint_chunk_interval)
    || not (ltb (t.bytes_received - t.checkpoint_bytes) inbound_checkpoint_byte_interval)

-- maybePersistInboundCheckpoint, once a checkpoint is due.
unfoldable pub persist_inbound_checkpoint : ℕ → InboundFileTransfer → FileSession → FileSession
persist_inbound_checkpoint now t s =
    let t' = record t { checkpoint_chunk = t.next_chunk; checkpoint_bytes = t.bytes_received } in
    let s' = set_inbound t' s in
    elim (upsert_transfer_checkpoint (pos (unix_milli now))
      (record {
        file_id = t.file_id;
        direction = receiving;
        next_chunk = pos t.next_chunk;
        bytes_transferred = pos t.bytes_received;
        temp_path = t.temp_path;
        updated_at = pos (unix_milli now);
      })
      s.node.checkpoints) [
        | refused e ↦ log_file_event reported s'
        | done rows ↦ record s' { node = record s'.node { checkpoints = rows } }
      ]

-- maybePersistInboundCheckpoint.
unfoldable pub maybe_persist_inbound_checkpoint :
    ℕ → InboundFileTransfer → Bool → FileSession → FileSession
unfolding is_inbound_due persist_inbound_checkpoint
maybe_persist_inbound_checkpoint now t force s =
    if is_inbound_due force t then persist_inbound_checkpoint now t s else s

-- The acknowledgement of a chunk, before it is signed.
abbrev pub chunk_ack : ℕ → FileData → Text → FileResponse
chunk_ack now d device_id = record {
  file_id = d.file_id;
  status = codes "chunk_ack";
  from_device_id = device_id;
  chunk_index = d.chunk_index;
  resume_from_chunk = pos 0;
  message = [];
  timestamp = pos (unix_milli now);
  signature = [];
}

module _ (p : Primitives) (c : Codec) (w : FileWire) where
  -- sendChunkNack.
  unfoldable pub send_chunk_nack : ℕ → Text → ℤ → Text → FileSession → FileSession
  send_chunk_nack now file_id chunk_index message s =
      respond p c w now
        (record {
          file_id = file_id;
          status = codes "chunk_nack";
          from_device_id = s.node.device_id;
          chunk_index = chunk_index;
          resume_from_chunk = pos 0;
          message = message;
          timestamp = pos (unix_milli now);
          signature = [];
        })
        s

  -- The acknowledgement of a chunk, and the progress: none of it if the acknowledgement cannot be
  -- signed.
  unfoldable pub acknowledge_chunk : ℕ → FileData → InboundFileTransfer → FileSession → FileSession
  acknowledge_chunk now d t s =
      elim (sign_file_response p c w s.node.private_key (chunk_ack now d s.node.device_id)) [
        | none ↦ log_file_event reported s
        | some signed ↦
            log_file_event (progress d.file_id t.bytes_received (pos t.filesize) accepted)
              (deliver p c w now signed s)
      ]

  -- The base64 texts, the decryption and the chunk's size.
  unfoldable pub open_chunk : Bytes → FileData → Opened
  open_chunk session_key d = elim (p.b64_decode d.encrypted_data) [
    | none ↦ nack (codes "invalid encrypted data")
    | some ciphertext ↦ elim (p.b64_decode d.iv) [
      | none ↦ nack (codes "invalid iv")
      | some iv ↦ elim (decrypt p session_key iv ciphertext) [
        | none ↦ nack (codes "decryption failed")
        | some plaintext ↦
            if is_mismatch d.chunk_size (length plaintext)
            then nack (codes "chunk size mismatch")
            else opened plaintext
      ]
    ]
  ]

  -- What follows the write.
  unfoldable pub record_chunk :
      ℕ → FileData → InboundFileTransfer → ℕ → ℕ → FileSession → FileSession
  record_chunk now d t index size s =
      let t' = mark_received index size t in
      acknowledge_chunk now d t' (maybe_persist_inbound_checkpoint now t' false (set_inbound t' s))

  -- handleFileData.
  unfoldable pub handle_file_data : ℕ → FileData → FileSession → FileSession
  handle_file_data now d s =
      let refuse = λ (message : Text). send_chunk_nack now d.file_id d.chunk_index message s in
      if is_empty d.file_id then s else elim (lookup d.file_id s.node.inbound) [
        | none ↦ refuse (codes "unknown file transfer")
        | some t ↦ elim (chunk_at t d.chunk_index) [
          | none ↦ refuse (codes "invalid chunk index")
          | some index ↦ elim (open_chunk s.conn.session_key d) [
            | nack message ↦ refuse message
            | opened plaintext ↦ elim (write_chunk t index plaintext s.node.disk) [
              | unwritten message ↦ refuse message
              | written disk ↦
                  record_chunk now d t index (length plaintext)
                    (record s { node = record s.node { disk = disk } })
            ]
          ]
        ]
      ]
