-- ===== src/Messaging/Session.antt =====
-- A connection together with the node: what the message handlers of peer_manager.go work on, and
-- how they answer.
use go_send.Base.{ℕ, ◌/◌, [], Option, none, some, Bytes, Text}
use go_send.Base.Int.{pos}
use go_send.Crypto.{Primitives, sign}
use go_send.Protocol.{EncryptedMessage, AckMessage, ErrorMessage}
use go_send.Connection.State.{PeerConnection}
use go_send.Connection.Secure.{Codec}
use go_send.Connection.Send.{send_message}
use go_send.Messaging.Node.{Event, Node, note}

-- json.Marshal of the messages of this part.
pub record Wire : Type 0 where
  pub marshal_message : EncryptedMessage → Option Bytes
  pub marshal_ack : AckMessage → Option Bytes
  pub marshal_error : ErrorMessage → Option Bytes

pub record Session : Type 0 where
  pub conn : PeerConnection
  pub node : Node

-- time.Time.UnixMilli of a clock in nanoseconds.
abbrev pub unix_milli : ℕ → ℕ
unix_milli now = now / 1_000_000

abbrev pub log_event : Event → Session → Session
log_event e s = record s { node = note e s.node }

module _ (p : Primitives) (c : Codec) (w : Wire) where
  -- sendErrorMessage; every caller drops its result.
  unfoldable pub send_error_message : ℕ → Text → Text → Text → Session → Session
  send_error_message now code message related s = record s {
    conn =
        (send_message p c now
          (w.marshal_error (record {
            code = code;
            message = message;
            related_message_id = related;
            supported_versions = [];
            timestamp = pos (unix_milli now);
          }))
          s.conn).0;
  }

  -- signAck.
  unfoldable pub sign_ack : Bytes → AckMessage → Option AckMessage
  sign_ack private_key ack = elim (w.marshal_ack (record ack { signature = [] })) [
    | none ↦ none
    | some raw ↦ elim (sign p private_key raw) [
      | none ↦ none
      | some sig ↦ some (record ack { signature = p.b64_encode sig })
    ]
  ]

  -- signEncryptedMessage.
  unfoldable pub sign_encrypted_message : Bytes → EncryptedMessage → Option EncryptedMessage
  sign_encrypted_message private_key m = elim (w.marshal_message (record m { signature = [] })) [
    | none ↦ none
    | some raw ↦ elim (sign p private_key raw) [
      | none ↦ none
      | some sig ↦ some (record m { signature = p.b64_encode sig })
    ]
  ]
