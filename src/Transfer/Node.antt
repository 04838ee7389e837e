-- ===== src/Transfer/Node.antt =====
-- The part of PeerManager that file transfers use: the transfers on their way in, the tables, the
-- temporary files, and a log of what is reported, newest last. Byte and chunk counts of a transfer
-- are natural numbers: they are sums over its chunks, below 2^63.
use go_send.Base.{ℕ, Bool, List, [], ◌∷◌, ◌++◌, Option, none, some, Bytes, Text}
use go_send.Base.Int.{ℤ}
use go_send.Base.Dict.{Dict}
use go_send.Crypto.{Primitives, sign}
use go_send.Protocol.{FileResponse, FileComplete, ErrorMessage}
use go_send.Connection.State.{PeerConnection}
use go_send.Connection.Secure.{Codec}
use go_send.Connection.Send.{send_message}
use go_send.Storage.Files.{TransferStatus, FileMetadata}
use go_send.Storage.Checkpoints.{TransferCheckpoint}

-- inboundFileTransfer, without the fields that only measure speed. ReceivedChunks holds the indices
-- that it maps to true.
pub record InboundFileTransfer : Type 0 where
  pub file_id : Text
  pub from_device_id : Text
  pub filename : Text
  pub filesize : ℕ
  pub filetype : Text
  pub checksum : Text
  pub chunk_size : ℕ
  pub total_chunks : ℕ
  pub temp_path : Text
  pub final_path : Text
  pub received_chunks : List ℕ
  pub next_chunk : ℕ
  pub bytes_received : ℕ
  pub checkpoint_chunk : ℕ
  pub checkpoint_bytes : ℕ

-- outboundFileTransfer, without the fields of its goroutine and those that only measure speed.
pub record OutboundFileTransfer : Type 0 where
  pub file_id : Text
  pub message_id : Text
  pub peer_device_id : Text
  pub folder_id : Text
  pub relative_path : Text
  pub source_path : Text
  pub filename : Text
  pub filesize : ℕ
  pub filetype : Text
  pub checksum : Text
  pub chunk_size : ℕ
  pub total_chunks : ℕ
  pub next_chunk : ℕ
  pub bytes_sent : ℕ
  pub running : Bool
  pub done : Bool
  pub rejected : Bool
  pub canceled : Bool
  pub checkpoint_chunk : ℕ
  pub checkpoint_bytes : ℕ

-- fileTransferEvent: what waits in the channel of an outbound transfer.
pub data FileTransferEvent : Type 0 where
  response : FileResponse → FileTransferEvent
  completion : FileComplete → FileTransferEvent

-- recentFileDecision, with times in milliseconds and nanoseconds.
pub record RecentFileDecision : Type 0 where
  pub accepted : Bool
  pub decided_at : ℕ
  pub expires_at : ℕ

-- What reportError, logSecurityEvent and OnFileProgress are called with.
pub data FileEvent : Type 0 where
  reported : FileEvent
  signature_failed : Text → FileEvent
  progress : Text → ℕ → ℤ → TransferStatus → FileEvent

-- `writable` is false once the disk takes no more writes and renames.
pub record Disk : Type 0 where
  pub files : Dict Bytes
  pub writable : Bool

pub record FileNode : Type 0 where
  pub device_id : Text
  pub private_key : Bytes
  pub download_directory : Text
  pub file_chunk_size : ℕ
  pub inbound : Dict InboundFileTransfer
  pub outbound : Dict OutboundFileTransfer
  pub event_chans : Dict (List FileTransferEvent)
  pub recent_decisions : Dict RecentFileDecision
  pub file_response_timeout : ℕ
  pub has_message : Text → Bool
  pub rows : List FileMetadata
  pub checkpoints : List TransferCheckpoint
  pub disk : Disk
  pub log : List FileEvent

pub record FileSession : Type 0 where
  pub conn : PeerConnection
  pub node : FileNode

abbrev pub log_file_event : FileEvent → FileSession → FileSession
log_file_event e s = record s { node = record s.node { log = s.node.log ++ (e ∷ []) } }

-- json.Marshal of the messages of this part.
pub record FileWire : Type 0 where
  pub marshal_response : FileResponse → Option Bytes
  pub marshal_complete : FileComplete → Option Bytes
  pub marshal_error : ErrorMessage → Option Bytes

module _ (p : Primitives) (c : Codec) (w : FileWire) where
  -- signFileResponse.
  unfoldable pub sign_file_response : Bytes → FileResponse → Option FileResponse
  sign_file_response private_key r = elim (w.marshal_response (record r { signature = [] })) [
    | none ↦ none
    | some raw ↦ elim (sign p private_key raw) [
      | none ↦ none
      | some sig ↦ some (record r { signature = p.b64_encode sig })
    ]
  ]

  -- SendMessage, with its error reported.
  unfoldable pub deliver : ℕ → FileResponse → FileSession → FileSession
  deliver now signed s =
      let (conn, e) = send_message p c now (w.marshal_response signed) s.conn in
      let s' = record s { conn = conn } in
      elim e [ none ↦ s' | some x ↦ log_file_event reported s' ]

  -- signFileResponse and SendMessage, with their errors reported.
  unfoldable pub respond : ℕ → FileResponse → FileSession → FileSession
  unfolding deliver
  respond now r s = elim (sign_file_response s.node.private_key r) [
    | none ↦ log_file_event reported s
    | some signed ↦ deliver now signed s
  ]
