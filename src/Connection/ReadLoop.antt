-- ===== src/Connection/ReadLoop.antt =====
-- network/connection.go: readLoop, one round at a time.
use go_send.Base.{
  ℕ, ◌+◌, Bool, false, not, ◌&&◌, List, [], ◌∷◌, ◌++◌, Option, none, some, Bytes, Text,
  if◌then◌else◌, leb, ltb, length, is_empty, text_eq,
}
use go_send.Crypto.{Primitives}
use go_send.Protocol.{
  max_control_frame_size, type_ping, type_pong, type_peer_disconnect, type_file_data,
  decode_message_type,
}
use go_send.Connection.State.{
  ConnError, oversized, malformed, read_error, ready, idle, disconnecting, PeerConnection,
  close_with_error,
}
use go_send.Connection.Secure.{Codec, decrypt_payload}
use go_send.Connection.Send.{send_message}

abbrev pub max_malformed_frames : ℕ
max_malformed_frames = 3

-- What ReadFrameWithTimeout gives: a frame, a timeout, io.EOF or net.ErrClosed, or another error.
pub data ReadEvent : Type 0 where
  frame : Bytes → ReadEvent
  timeout : ReadEvent
  end_of_stream : ReadEvent
  failure : ReadEvent

-- `malformed_frames` is the local counter; the loop has returned when `running` is false.
pub record Reader : Type 0 where
  pub conn : PeerConnection
  pub malformed_frames : ℕ
  pub running : Bool

module _ (p : Primitives) (c : Codec) where
  stop : Option ConnError → Reader → Reader
  stop e r = record r { conn = close_with_error e r.conn; running = false }

  count_malformed : Reader → Reader
  unfolding stop
  count_malformed r =
      let n = r.malformed_frames + 1 in
      if leb max_malformed_frames n
      then stop (some (malformed n)) (record r { malformed_frames = n })
      else record r { malformed_frames = n }

  -- The `switch msgType`; `pong` is the marshalled reply. Go blocks while `inbound` is full.
  dispatch : ℕ → Option Bytes → Text → Bytes → Reader → Reader
  unfolding stop
  dispatch now pong t payload r =
      if text_eq t type_ping
      then (let conn = record r.conn { state = idle } in
          record r {
            conn = if conn.auto_respond_ping then (send_message p c now pong conn).0 else conn;
          })
      else if text_eq t type_pong
      then record r {
        conn = record r.conn { waiting_pong = false; pong_deadline = 0; state = idle };
      }
      else if text_eq t type_peer_disconnect
      then stop none (record r { conn = record r.conn { state = disconnecting } })
      else record r {
        conn = record r.conn { state = ready; inbound = r.conn.inbound ++ (payload ∷ []) };
      }

  -- What follows decryptPayload.
  receive_payload : ℕ → Option Bytes → Bytes → Reader → Reader
  unfolding stop count_malformed dispatch
  receive_payload now pong payload r =
      if is_empty payload then r else elim (decode_message_type c.envelope payload) [
        | none ↦
            if ltb max_control_frame_size (length payload)
            then stop (some oversized) r
            else count_malformed r
        | some t ↦
            if not (text_eq t type_file_data) && ltb max_control_frame_size (length payload)
            then stop (some oversized) r
            else dispatch now pong t payload (record r { malformed_frames = 0 })
      ]

  on_event : ℕ → Option Bytes → ReadEvent → Reader → Reader
  unfolding stop count_malformed receive_payload
  on_event now pong timeout r = r
  on_event now pong end_of_stream r = stop none r
  on_event now pong failure r = stop (some read_error) r
  on_event now pong (frame bytes) r =
      let touched = record r { conn = record r.conn { last_activity = now } } in
      if is_empty bytes then touched else elim (decrypt_payload p c touched.conn bytes) [
        | none ↦ count_malformed touched
        | some payload ↦ receive_payload now pong payload touched
      ]

  -- One round of the loop.
  unfoldable pub read_round : ℕ → Option Bytes → ReadEvent → Reader → Reader
  unfolding on_event
  read_round now pong event r =
      if not r.running
      then r
      else if r.conn.closed
      then record r { running = false }
      else on_event now pong event r

  -- The loop over what the socket gives; each event comes with the time and the reply to a ping.
  unfoldable pub read_loop : List (ℕ × Option Bytes × ReadEvent) → Reader → Reader
  unfolding read_round
  read_loop [] r = r
  read_loop ((now, pong, event) ∷ events) r = read_loop events (read_round now pong event r)
