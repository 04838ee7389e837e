-- ===== src/Connection/Send.antt =====
-- network/connection.go: SendRaw, SendMessage and Disconnect.
use go_send.Base.{
  ℕ, ◌+◌, Bool, false, not, ◌||◌, ◌++◌, Option, none, some, Bytes, if◌then◌else◌, length, text_eq,
}
use go_send.Crypto.{Primitives}
use go_send.Protocol.{type_ping, type_pong, decode_message_type}
use go_send.Protocol.Frame.{ok, err, write_frame}
use go_send.Connection.State.{
  ConnError, eof, encrypt_failed, marshal_failed, write_error, ready, disconnecting, PeerConnection,
  is_disconnected, u64, close_with_error, trigger_rekey_if_needed,
}
use go_send.Connection.Secure.{Codec, encrypt_payload}

-- net.Conn.Write on this connection.
unfoldable pub write_conn : Bool → Bytes → Bytes → Option Bytes
write_conn link_up stream bytes = if link_up then some (stream ++ bytes) else none

module _ (p : Primitives) (c : Codec) where
  -- A payload with a type other than ping and pong makes the connection ready.
  is_application : Bytes → Bool
  is_application payload = elim (decode_message_type c.envelope payload) [
    | none ↦ false
    | some t ↦ not (text_eq t type_ping || text_eq t type_pong)
  ]

  -- What SendRaw does once the frame is on the wire.
  after_write : ℕ → Bytes → Bytes → PeerConnection → PeerConnection
  unfolding is_application
  after_write now payload wire pc =
      let sent = trigger_rekey_if_needed now (record pc {
        wire = wire;
        draws = pc.draws + 1;
        last_activity = now;
        bytes_since_rekey = u64 (pc.bytes_since_rekey + length payload);
      }) in
      if is_application payload then record sent { state = ready } else sent

  -- SendRaw: none is success.
  unfoldable pub send_raw : ℕ → Bytes → PeerConnection → PeerConnection × Option ConnError
  unfolding after_write
  send_raw now payload pc =
      if is_disconnected pc.state
      then (pc, elim pc.close_err [ none ↦ some eof | some e ↦ some e ])
      else elim (encrypt_payload p c pc payload) [
        | none ↦ (record pc { draws = pc.draws + 1 }, some encrypt_failed)
        | some frame ↦ elim (write_frame (write_conn pc.link_up) pc.wire frame) [
          | err e ↦ (
            close_with_error (some (write_error e)) (record pc { draws = pc.draws + 1 }),
            some (write_error e),
          )
          | ok wire ↦ (after_write now payload wire pc, none)
        ]
      ]

  -- SendMessage: EncodeJSON, then SendRaw.
  unfoldable pub send_message :
      ℕ → Option Bytes → PeerConnection → PeerConnection × Option ConnError
  send_message now none pc = (pc, some marshal_failed)
  send_message now (some payload) pc = send_raw now payload pc

  -- Disconnect: `notice` is the marshalled peer_disconnect.
  unfoldable pub disconnect : ℕ → Option Bytes → PeerConnection → PeerConnection
  disconnect now notice pc =
      close_with_error none (send_message now notice (record pc { state = disconnecting })).0
