-- ===== src/Connection/KeepAlive.antt =====
-- network/connection.go: keepAliveLoop, one tick at a time.
use go_send.Base.{ℕ, ◌+◌, ◌-◌, Bool, true, false, Option, none, some, Bytes, if◌then◌else◌, ltb}
use go_send.Crypto.{Primitives}
use go_send.Connection.State.{
  pong_timeout, idle, PeerConnection, is_disconnected, close_with_error, trigger_rekey_if_needed,
  waiting_pong_expired,
}
use go_send.Connection.Secure.{Codec}
use go_send.Connection.Send.{send_message}

module _ (p : Primitives) (c : Codec) where
  -- setWaitingPong and setState after the ping went out.
  wait_for_pong : ℕ → PeerConnection → PeerConnection
  wait_for_pong now pc = record pc {
    waiting_pong = true;
    pong_deadline = now + pc.keep_alive_timeout;
    state = idle;
  }

  -- One tick; the Boolean says whether the loop goes on. `ping` is the marshalled ping.
  unfoldable pub keep_alive_tick : ℕ → Option Bytes → PeerConnection → PeerConnection × Bool
  unfolding wait_for_pong
  keep_alive_tick now ping pc =
      if is_disconnected pc.state
      then (pc, false)
      else (let pc = trigger_rekey_if_needed now pc in
          if waiting_pong_expired now pc
          then (close_with_error (some pong_timeout) pc, false)
          else if ltb (now - pc.last_activity) pc.keep_alive_interval
          then (pc, true)
          else if pc.waiting_pong
          then (pc, true)
          else (let (sent, e) = send_message p c now ping pc in
              elim e [ some _ ↦ (sent, false) | none ↦ (wait_for_pong now sent, true) ]))
