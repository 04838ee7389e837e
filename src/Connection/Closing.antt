-- ===== src/Connection/Closing.antt =====
-- The end of a connection: closeWithError, Disconnect, and what can still happen afterwards.
use go_send.Base.{
  ℕ, ◌≡◌, refl, Bool, true, false, List, [], ◌∷◌, Option, none, some, Bytes, arith, if◌then◌else◌,
  Option-cases, inl, inr, ltb, length,
}
use go_send.Protocol.{max_frame_size}
use go_send.Crypto.{Primitives}
use go_send.Protocol.Frame.{FrameError, frame_too_large, write_failed, err, write_frame}
use go_send.Connection.State.{
  ConnError, pong_timeout, disconnecting, disconnected, PeerConnection, close_with_error,
  trigger_rekey_if_needed,
}
use go_send.Connection.Secure.{Codec, encrypt_payload}
use go_send.Connection.Send.{write_conn, send_raw, send_message, disconnect}
use go_send.Connection.KeepAlive.{keep_alive_tick}

-- What the goroutines of a connection do to it.
pub data Call : Type 0 where
  sends : ℕ → Option Bytes → Call
  disconnects : ℕ → Option Bytes → Call
  closes : Option ConnError → Call
  ticks : ℕ → Option Bytes → Call

-- Closed with this error, with these bytes written.
pub record IsClosedAs (wire : Bytes) (e : Option ConnError) (pc : PeerConnection) : Type 0 where
  pub closed : pc.closed ≡ true
  pub link_down : pc.link_up ≡ false
  pub written : pc.wire ≡ wire
  pub reason : pc.close_err ≡ e

-- On a closed link every frame fails.
down_error : Bytes → FrameError
down_error f = if ltb max_frame_size (length f) then frame_too_large else write_failed

write_frame-down :
    (up : Bool) (w f : Bytes) → up ≡ false → write_frame (write_conn up) w f ≡ err (down_error f)
unfolding write_frame write_conn down_error
write_frame-down up w f h = ground arith

module _ (p : Primitives) (c : Codec) where
  pub call : Call → PeerConnection → PeerConnection
  call (sends now payload) pc = (send_message p c now payload pc).0
  call (disconnects now notice) pc = disconnect p c now notice pc
  call (closes e) pc = close_with_error e pc
  call (ticks now ping) pc = (keep_alive_tick p c now ping pc).0

  pub calls : List Call → PeerConnection → PeerConnection
  calls [] pc = pc
  calls (k ∷ ks) pc = calls ks (call k pc)

  send_raw-IsClosedAs :
      (now : ℕ) (payload wire : Bytes) (e : Option ConnError) (pc : PeerConnection)
      → IsClosedAs wire e pc
      → IsClosedAs wire e (send_raw p c now payload pc).0
  unfolding send_raw close_with_error
  send_raw-IsClosedAs now payload wire e pc h =
      elim (Option-cases (encrypt_payload p c pc payload)) [
        | inl q ↦ ground arith
        | inr (f, q) ↦ ground (arith, q, write_frame-down pc.link_up pc.wire f)
      ]

  send_message-IsClosedAs :
      (now : ℕ) (payload : Option Bytes) (wire : Bytes) (e : Option ConnError) (pc : PeerConnection)
      → IsClosedAs wire e pc
      → IsClosedAs wire e (send_message p c now payload pc).0
  unfolding send_message
  send_message-IsClosedAs now none wire e pc h = h
  send_message-IsClosedAs now (some payload) wire e pc h =
      send_raw-IsClosedAs now payload wire e pc h

  close-IsClosedAs :
      (f : Option ConnError) (wire : Bytes) (e : Option ConnError) (pc : PeerConnection)
      → IsClosedAs wire e pc
      → close_with_error f pc ≡ pc
  unfolding close_with_error
  close-IsClosedAs f wire e pc h = ground arith

  trigger-IsClosedAs :
      (now : ℕ) (wire : Bytes) (e : Option ConnError) (pc : PeerConnection)
      → IsClosedAs wire e pc
      → IsClosedAs wire e (trigger_rekey_if_needed now pc)
  unfolding trigger_rekey_if_needed
  trigger-IsClosedAs now wire e pc h = ground arith

  tick-IsClosedAs :
      (now : ℕ) (ping : Option Bytes) (wire : Bytes) (e : Option ConnError) (pc : PeerConnection)
      → IsClosedAs wire e pc
      → IsClosedAs wire e (keep_alive_tick p c now ping pc).0
  unfolding keep_alive_tick
  tick-IsClosedAs now ping wire e pc h =
      let t = trigger_rekey_if_needed now pc in
      let th = trigger-IsClosedAs now wire e pc h in
      ground (
        arith,
        th,
        close-IsClosedAs (some pong_timeout) wire e t th,
        send_message-IsClosedAs now ping wire e t th,
      )

  call-IsClosedAs :
      (k : Call) (wire : Bytes) (e : Option ConnError) (pc : PeerConnection)
      → IsClosedAs wire e pc
      → IsClosedAs wire e (call k pc)
  unfolding call disconnect
  call-IsClosedAs (sends now payload) wire e pc h = send_message-IsClosedAs now payload wire e pc h
  call-IsClosedAs (disconnects now notice) wire e pc h =
      let away = record pc { state = disconnecting } in
      let sent = send_message-IsClosedAs now notice wire e away (ground arith) in
      rw (close-IsClosedAs none wire e (send_message p c now notice away).0 sent) sent
  call-IsClosedAs (closes f) wire e pc h = rw (close-IsClosedAs f wire e pc h) h
  call-IsClosedAs (ticks now ping) wire e pc h = tick-IsClosedAs now ping wire e pc h

  -- Once a connection is closed, no sequence of sends, keep-alive ticks, disconnects and further
  -- closes writes a byte to its socket, and the reason of the first close stays.
  pub calls-IsClosedAs :
      (ks : List Call) (wire : Bytes) (e : Option ConnError) (pc : PeerConnection)
      → IsClosedAs wire e pc
      → IsClosedAs wire e (calls ks pc)
  unfolding calls
  calls-IsClosedAs [] wire e pc h = h
  calls-IsClosedAs (k ∷ ks) wire e pc h =
      calls-IsClosedAs ks wire e (call k pc) (call-IsClosedAs k wire e pc h)

  -- If it is closed, then in state DISCONNECTED and with the link down.
  IsTidy : PeerConnection → Type 0
  IsTidy pc = pc.closed ≡ true → (pc.link_up ≡ false) × (pc.state ≡ disconnected)

  send_raw-IsTidy :
      (now : ℕ) (payload : Bytes) (pc : PeerConnection)
      → pc.closed ≡ false
      → IsTidy (send_raw p c now payload pc).0
  unfolding IsTidy send_raw close_with_error trigger_rekey_if_needed
  send_raw-IsTidy now payload pc h = λ q. ground arith

  send_message-IsTidy :
      (now : ℕ) (payload : Option Bytes) (pc : PeerConnection)
      → pc.closed ≡ false
      → IsTidy (send_message p c now payload pc).0
  unfolding send_message
  send_message-IsTidy now none pc h = unfold IsTidy in λ q. ground arith
  send_message-IsTidy now (some payload) pc h = send_raw-IsTidy now payload pc h

  close-tidy :
      (e : Option ConnError) (pc : PeerConnection)
      → IsTidy pc
      → let pc' = close_with_error e pc in
        (pc'.closed ≡ true) × (pc'.link_up ≡ false) × (pc'.state ≡ disconnected)
  unfolding close_with_error IsTidy
  close-tidy e pc t = ground (arith, t)

  -- Disconnect leaves an open connection closed, with the link down and in state DISCONNECTED,
  -- whether or not the notice could be marshalled, encrypted and written.
  pub disconnect_open :
      (now : ℕ) (notice : Option Bytes) (pc : PeerConnection)
      → pc.closed ≡ false
      → let pc' = disconnect p c now notice pc in
        (pc'.closed ≡ true) × (pc'.link_up ≡ false) × (pc'.state ≡ disconnected)
  unfolding disconnect
  disconnect_open now notice pc h =
      close-tidy none _ (send_message-IsTidy now notice (record pc { state = disconnecting }) h)

  send_message-state :
      (now : ℕ) (payload : Option Bytes) (wire : Bytes) (e : Option ConnError) (pc : PeerConnection)
      → IsClosedAs wire e pc
      → (send_message p c now payload pc).0.state ≡ pc.state
  unfolding send_message send_raw close_with_error
  send_message-state now none wire e pc h = refl
  send_message-state now (some payload) wire e pc h =
      elim (Option-cases (encrypt_payload p c pc payload)) [
        | inl q ↦ ground arith
        | inr (f, q) ↦ ground (arith, q, write_frame-down pc.link_up pc.wire f)
      ]

  -- Disconnect on a connection that is closed already leaves it in state DISCONNECTING, a state
  -- that State() reports as not disconnected.
  pub disconnect_closed :
      (now : ℕ) (notice : Option Bytes) (wire : Bytes) (e : Option ConnError) (pc : PeerConnection)
      → IsClosedAs wire e pc
      → (disconnect p c now notice pc).state ≡ disconnecting
  unfolding disconnect
  disconnect_closed now notice wire e pc h =
      let away = record pc { state = disconnecting } in
      let ah : IsClosedAs wire e away = ground arith in
      rw (close-IsClosedAs none wire e _ (send_message-IsClosedAs now notice wire e away ah))
        (send_message-state now notice wire e away ah)
