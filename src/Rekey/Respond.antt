-- ===== src/Rekey/Respond.antt =====
-- The responder: handleRekeyRequest.
use go_send.Base.{ℕ, ◌/◌, [], Option, none, some, Bytes, Text}
use go_send.Base.Int.{pos}
use go_send.Crypto.{Primitives}
use go_send.Crypto.Session.{derive_rekey_session_key}
use go_send.Protocol.{Rekey}
use go_send.Connection.State.{rotate_session_key}
use go_send.Connection.Secure.{Codec}
use go_send.Connection.Send.{send_message}
use go_send.Messaging.Node.{reported}
use go_send.Messaging.Session.{Session, log_event}
use go_send.Rekey.Sign.{type_rekey_response, shut, sign_rekey, refuse_rekey}

module _ (p : Primitives) (c : Codec) (marshal : Rekey → Option Bytes)
    (format_uint : ℕ → Text) where
  -- The response before it is signed.
  unfoldable pub rekey_response : ℕ → Bytes → ℕ → Session → Rekey
  rekey_response now private_key epoch s = record {
    message_type = type_rekey_response;
    from_device_id = s.node.device_id;
    epoch = epoch;
    x25519_public_key = p.b64_encode (p.x25519_public private_key);
    timestamp = pos (now / 1_000_000);
    signature = [];
  }

  unfoldable pub handle_rekey_request : ℕ → Option Bytes → Rekey → Session → Session
  handle_rekey_request now ephemeral request s = elim (refuse_rekey p marshal now request s) [
    | some refused ↦ refused
    | none ↦ elim ephemeral [
      | none ↦ shut (log_event reported s)
      | some private_key ↦
          elim (derive_rekey_session_key p format_uint private_key request.x25519_public_key
            s.node.device_id s.conn.peer_device_id request.epoch) [
              | none ↦ shut (log_event reported s)
              | some key ↦
                  elim (sign_rekey p marshal s.node.private_key
                    (rekey_response now private_key request.epoch s)) [
                      | none ↦ shut (log_event reported s)
                      | some response ↦
                          let (conn, e) = send_message p c now (marshal response) s.conn in
                          elim e [
                            | some _ ↦ shut (log_event reported (record s { conn = conn }))
                            | none ↦
                                let (rotated, f) = rotate_session_key now key request.epoch conn in
                                elim f [
                                  | some _ ↦ shut (log_event reported (record s { conn = conn }))
                                  | none ↦ record s { conn = rotated }
                                ]
                          ]
                    ]
            ]
    ]
  ]
