-- ===== src/Protocol.antt =====
-- network/protocol.go: the messages of the wire protocol, and the limits. Strings and byte slices
-- are bytes, int64 and int are ℤ where a peer chooses them, uint64 is ℕ.
pub mod Frame
use go_send.Base.{ℕ, ◌*◌, Bool, Bytes, List, codes, Option, none, some, is_empty, if◌then◌else◌}
use go_send.Base.Int.{ℤ}

abbrev pub protocol_version : ℕ
protocol_version = 1

-- 64 KB and 10 MB.
abbrev pub max_control_frame_size : ℕ
max_control_frame_size = 64 * 1024

abbrev pub max_frame_size : ℕ
max_frame_size = 10 * 1024 * 1024

-- The values of the "type" field that the code compares with.
abbrev pub type_handshake_challenge : Bytes
type_handshake_challenge = codes "handshake_challenge"

abbrev pub type_handshake : Bytes
type_handshake = codes "handshake"

abbrev pub type_handshake_response : Bytes
type_handshake_response = codes "handshake_response"

abbrev pub type_peer_disconnect : Bytes
type_peer_disconnect = codes "peer_disconnect"

abbrev pub type_ping : Bytes
type_ping = codes "ping"

abbrev pub type_pong : Bytes
type_pong = codes "pong"

abbrev pub type_file_data : Bytes
type_file_data = codes "file_data"

abbrev pub type_error : Bytes
type_error = codes "error"

pub record HandshakeChallenge : Type 0 where
  pub message_type : Bytes
  pub nonce : Bytes

pub record HandshakeMessage : Type 0 where
  pub message_type : Bytes
  pub device_id : Bytes
  pub device_name : Bytes
  pub ed25519_public_key : Bytes
  pub x25519_public_key : Bytes
  pub challenge_nonce : Bytes
  pub version : ℤ
  pub timestamp : ℤ
  pub signature : Bytes

pub record HandshakeResponse : Type 0 where
  pub message_type : Bytes
  pub device_id : Bytes
  pub device_name : Bytes
  pub ed25519_public_key : Bytes
  pub x25519_public_key : Bytes
  pub version : ℤ
  pub timestamp : ℤ
  pub signature : Bytes

pub record PeerAddRequest : Type 0 where
  pub from_device_id : Bytes
  pub from_device_name : Bytes
  pub timestamp : ℤ
  pub signature : Bytes

pub record PeerAddResponse : Type 0 where
  pub status : Bytes
  pub device_id : Bytes
  pub device_name : Bytes
  pub timestamp : ℤ
  pub signature : Bytes

pub record PeerRemove : Type 0 where
  pub from_device_id : Bytes
  pub timestamp : ℤ
  pub signature : Bytes

-- PeerDisconnect, PingMessage and PongMessage have the same fields.
pub record Notice : Type 0 where
  pub message_type : Bytes
  pub from_device_id : Bytes
  pub timestamp : ℤ

pub record EncryptedMessage : Type 0 where
  pub message_id : Bytes
  pub from_device_id : Bytes
  pub to_device_id : Bytes
  pub content_type : Bytes
  pub sequence : ℕ
  pub encrypted_content : Bytes
  pub iv : Bytes
  pub timestamp : ℤ
  pub signature : Bytes

-- RekeyRequest and RekeyResponse have the same fields; the type tells them apart.
pub record Rekey : Type 0 where
  pub message_type : Bytes
  pub from_device_id : Bytes
  pub epoch : ℕ
  pub x25519_public_key : Bytes
  pub timestamp : ℤ
  pub signature : Bytes

pub record FileRequest : Type 0 where
  pub file_id : Bytes
  pub folder_id : Bytes
  pub relative_path : Bytes
  pub from_device_id : Bytes
  pub to_device_id : Bytes
  pub filename : Bytes
  pub filesize : ℤ
  pub filetype : Bytes
  pub checksum : Bytes
  pub sequence : ℕ
  pub timestamp : ℤ
  pub signature : Bytes

pub record FileResponse : Type 0 where
  pub file_id : Bytes
  pub status : Bytes
  pub from_device_id : Bytes
  pub chunk_index : ℤ
  pub resume_from_chunk : ℤ
  pub message : Bytes
  pub timestamp : ℤ
  pub signature : Bytes

pub record FileData : Type 0 where
  pub file_id : Bytes
  pub chunk_index : ℤ
  pub total_chunks : ℤ
  pub chunk_size : ℤ
  pub encrypted_data : Bytes
  pub iv : Bytes
  pub timestamp : ℤ

pub record FileComplete : Type 0 where
  pub file_id : Bytes
  pub status : Bytes
  pub message : Bytes
  pub timestamp : ℤ
  pub signature : Bytes

pub record AckMessage : Type 0 where
  pub message_id : Bytes
  pub from_device_id : Bytes
  pub status : Bytes
  pub timestamp : ℤ
  pub signature : Bytes

pub record ErrorMessage : Type 0 where
  pub code : Bytes
  pub message : Bytes
  pub related_message_id : Bytes
  pub supported_versions : List ℕ
  pub timestamp : ℤ

-- DecodeMessageType: `envelope` is json.Unmarshal into an Envelope; "" is ErrInvalidMessageType.
unfoldable pub decode_message_type : (Bytes → Option Bytes) → Bytes → Option Bytes
decode_message_type envelope payload = elim (envelope payload) [
  | none ↦ none
  | some t ↦ if is_empty t then none else some t
]
