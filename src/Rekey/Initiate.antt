-- ===== src/Rekey/Initiate.antt =====
-- The initiator: onConnectionRekeyNeeded, initiateRekey before and after its wait, and
-- handleRekeyResponse.
use go_send.Base.{
  ℕ, ◌+◌, ◌/◌, false, not, [], Option, none, some, Bytes, Text, is_empty, text_lt, ◌==◌,
  if◌then◌else◌,
}
use go_send.Base.Int.{pos}
use go_send.Crypto.{Primitives}
use go_send.Crypto.Session.{derive_rekey_session_key}
use go_send.Protocol.{Rekey}
use go_send.Connection.State.{u64, is_disconnected, rotate_session_key}
use go_send.Connection.Secure.{Codec}
use go_send.Connection.Send.{send_message}
use go_send.Messaging.Node.{reported}
use go_send.Messaging.Session.{Session, log_event}
use go_send.Rekey.Sign.{type_rekey_request, shut, sign_rekey, refuse_rekey}

-- The entry of pendingRekeyWaiters for the peer with what initiateRekey keeps: its ephemeral
-- private key, the target epoch, and the response in the channel of capacity 1.
pub record Waiter : Type 0 where
  pub private_key : Bytes
  pub target_epoch : ℕ
  pub response : Option Rekey

pub record Initiator : Type 0 where
  pub session : Session
  pub waiter : Option Waiter

abbrev pub set_session : Session → Initiator → Initiator
set_session s i = record i { session = s }

module _ (p : Primitives) (c : Codec) (marshal : Rekey → Option Bytes)
    (format_uint : ℕ → Text) where
  -- The request before it is signed.
  unfoldable pub rekey_request : ℕ → Bytes → Session → Rekey
  rekey_request now private_key s = record {
    message_type = type_rekey_request;
    from_device_id = s.node.device_id;
    epoch = u64 (s.conn.session_epoch + 1);
    x25519_public_key = p.b64_encode (p.x25519_public private_key);
    timestamp = pos (now / 1_000_000);
    signature = [];
  }

  -- onConnectionRekeyNeeded's answer to an error of initiateRekey.
  rekey_failed : Initiator → Initiator
  rekey_failed i = record { session = shut (log_event reported i.session); waiter = none }

  -- initiateRekey up to its wait. `ephemeral` is the private key of
  -- GenerateEphemeralX25519KeyPair, or none for its error.
  unfoldable pub initiate_rekey : ℕ → Option Bytes → Initiator → Initiator
  unfolding rekey_failed
  initiate_rekey now ephemeral i =
      let s = i.session in
      elim i.waiter [
        | some _ ↦ i
        | none ↦ elim ephemeral [
          | none ↦ rekey_failed i
          | some private_key ↦
              elim (sign_rekey p marshal s.node.private_key (rekey_request now private_key s)) [
                | none ↦ rekey_failed i
                | some request ↦
                    let (conn, e) = send_message p c now (marshal request) s.conn in
                    elim e [
                      | some _ ↦ rekey_failed (set_session (record s { conn = conn }) i)
                      | none ↦ record {
                        session = record s { conn = conn };
                        waiter = some (record {
                          private_key = private_key;
                          target_epoch = u64 (s.conn.session_epoch + 1);
                          response = none;
                        });
                      }
                    ]
              ]
        ]
      ]

  -- onConnectionRekeyNeeded: the device with the greater ID never initiates.
  unfoldable pub on_connection_rekey_needed : ℕ → Option Bytes → Initiator → Initiator
  unfolding initiate_rekey
  on_connection_rekey_needed now ephemeral i =
      let s = i.session in
      if is_disconnected s.conn.state
      then i
      else if is_empty s.conn.peer_device_id
      then set_session (record s { conn = record s.conn { rekey_in_progress = false } }) i
      else if text_lt s.conn.peer_device_id s.node.device_id
      then set_session (record s { conn = record s.conn { rekey_in_progress = false } }) i
      else initiate_rekey now ephemeral i

  -- handleRekeyResponse: a response for which nobody waits, or a second one, is dropped.
  unfoldable pub handle_rekey_response : ℕ → Rekey → Initiator → Initiator
  handle_rekey_response now response i = elim (refuse_rekey p marshal now response i.session) [
    | some s ↦ set_session s i
    | none ↦ elim i.waiter [
      | none ↦ i
      | some waiter ↦ elim waiter.response [
        | some _ ↦ i
        | none ↦ record i { waiter = some (record waiter { response = some response }) }
      ]
    ]
  ]

  -- initiateRekey once a response is in the channel.
  unfoldable pub finish_rekey : ℕ → Initiator → Initiator
  unfolding rekey_failed
  finish_rekey now i =
      let s = i.session in
      elim i.waiter [
        | none ↦ i
        | some waiter ↦ elim waiter.response [
          | none ↦ i
          | some response ↦
              if not (response.epoch == waiter.target_epoch)
              then rekey_failed i
              else elim (derive_rekey_session_key p format_uint waiter.private_key
                  response.x25519_public_key s.node.device_id s.conn.peer_device_id
                  waiter.target_epoch) [
                    | none ↦ rekey_failed i
                    | some key ↦
                        let (conn, e) = rotate_session_key now key waiter.target_epoch s.conn in
                        elim e [
                          | some _ ↦ rekey_failed i
                          | none ↦ record { session = record s { conn = conn }; waiter = none }
                        ]
                  ]
        ]
      ]
