-- ===== src/Connection/State.antt =====
-- network/connection.go: the fields of PeerConnection, and what does not send or receive.
-- Locks and atomics make each operation one step; times are nanoseconds of one clock.
use go_send.Base.{
  ℕ, ◌+◌, ◌-◌, ◌%◌, ◌^◌, Bool, true, false, not, ◌&&◌, ◌||◌, List, Option, none, some, Bytes, Text,
  leb, ltb, ◌==◌, if◌then◌else◌, is_empty,
}
use go_send.Protocol.Frame.{FrameError}

pub data ConnectionState : Type 0 where
  connecting ready idle disconnecting disconnected : ConnectionState

pub data ConnError : Type 0 where
  eof pong_timeout oversized sequence_replay empty_key encrypt_failed marshal_failed : ConnError
  malformed : ℕ → ConnError
  stale_epoch : ℕ → ConnError
  unexpected_epoch : ℕ → ConnError
  write_error : FrameError → ConnError
  read_error : ConnError

-- `wire` is the byte stream written to the socket, `link_up` whether it takes a write;
-- `callbacks` counts the starts of onRekeyNeeded, `draws` the readings of the random source.
pub record PeerConnection : Type 0 where
  pub session_key : Bytes
  pub session_epoch : ℕ
  pub previous_session_key : Bytes
  pub previous_session_epoch : ℕ
  pub has_previous_session : Bool
  pub local_device_id : Text
  pub peer_device_id : Text
  pub peer_public_key : Text
  pub send_sequence : ℕ
  pub last_seen_seq : ℕ
  pub state : ConnectionState
  pub waiting_pong : Bool
  pub pong_deadline : ℕ
  pub last_activity : ℕ
  pub last_rekey_at : ℕ
  pub bytes_since_rekey : ℕ
  pub keep_alive_interval : ℕ
  pub keep_alive_timeout : ℕ
  pub auto_respond_ping : Bool
  pub rekey_interval : ℕ
  pub rekey_after_bytes : ℕ
  pub inbound : List Bytes
  pub closed : Bool
  pub close_err : Option ConnError
  pub rekey_in_progress : Bool
  pub has_callback : Bool
  pub callbacks : ℕ
  pub wire : Bytes
  pub link_up : Bool
  pub draws : ℕ

abbrev pub u64 : ℕ → ℕ
u64 n = n % 2 ^ 64

abbrev pub is_disconnected : ConnectionState → Bool
is_disconnected disconnected = true
is_disconnected _ = false

-- NextSendSequence.
unfoldable pub next_send_sequence : PeerConnection → PeerConnection × ℕ
next_send_sequence pc = let n = u64 (pc.send_sequence + 1) in (record pc { send_sequence = n }, n)

-- ValidateSequence: none is success.
unfoldable pub validate_sequence : PeerConnection → ℕ → PeerConnection × Option ConnError
validate_sequence pc sequence =
    if leb sequence pc.last_seen_seq
    then (pc, some sequence_replay)
    else (record pc { last_seen_seq = sequence }, none)

-- RotateSessionKey.
unfoldable pub rotate_session_key :
    ℕ → Bytes → ℕ → PeerConnection → PeerConnection × Option ConnError
rotate_session_key now new_key epoch pc =
    if is_empty new_key
    then (pc, some empty_key)
    else if leb epoch pc.session_epoch
    then (pc, some (stale_epoch epoch))
    else if not (epoch == u64 (pc.session_epoch + 1))
    then (pc, some (unexpected_epoch epoch))
    else (
      record pc {
        previous_session_key = pc.session_key;
        previous_session_epoch = pc.session_epoch;
        has_previous_session = not (is_empty pc.session_key);
        session_key = new_key;
        session_epoch = epoch;
        bytes_since_rekey = 0;
        last_rekey_at = now;
        rekey_in_progress = false;
      },
      none,
    )

-- closeWithError runs once: closeOnce.
unfoldable pub close_with_error : Option ConnError → PeerConnection → PeerConnection
close_with_error e pc = if pc.closed then pc else record pc {
  close_err = e;
  rekey_in_progress = false;
  state = disconnected;
  link_up = false;
  closed = true;
}

-- triggerRekeyIfNeeded: the callback is started at most once until the rekey ends.
unfoldable pub trigger_rekey_if_needed : ℕ → PeerConnection → PeerConnection
trigger_rekey_if_needed now pc =
    let due_by_time = leb pc.rekey_interval (now - pc.last_rekey_at) in
    let due_by_bytes = leb pc.rekey_after_bytes pc.bytes_since_rekey in
    if not (due_by_time || due_by_bytes)
    then pc
    else if pc.rekey_in_progress || not pc.has_callback
    then pc
    else record pc { rekey_in_progress = true; callbacks = pc.callbacks + 1 }

-- waitingPongExpired.
unfoldable pub waiting_pong_expired : ℕ → PeerConnection → Bool
waiting_pong_expired now pc = pc.waiting_pong && ltb pc.pong_deadline now
