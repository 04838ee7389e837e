-- ===== src/Connection/Kept.antt =====
-- What sending leaves alone.
use go_send.Base.{ℕ, ◌≡◌, refl, Option, none, some, Bytes, arith}
use go_send.Crypto.{Primitives}
use go_send.Connection.State.{PeerConnection, close_with_error, trigger_rekey_if_needed}
use go_send.Connection.Secure.{Codec}
use go_send.Connection.Send.{send_raw, send_message}

-- The same session key, epoch and peer.
pub record HasSameSession (pc pc' : PeerConnection) : Type 0 where
  pub key : pc'.session_key ≡ pc.session_key
  pub epoch : pc'.session_epoch ≡ pc.session_epoch
  pub peer : pc'.peer_device_id ≡ pc.peer_device_id
  pub peer_key : pc'.peer_public_key ≡ pc.peer_public_key

module _ (p : Primitives) (c : Codec) where
  send_raw-HasSameSession :
      (now : ℕ) (payload : Bytes) (pc : PeerConnection)
      → HasSameSession pc (send_raw p c now payload pc).0
  unfolding send_raw close_with_error trigger_rekey_if_needed
  send_raw-HasSameSession now payload pc = ground arith

  pub send_message-HasSameSession :
      (now : ℕ) (payload : Option Bytes) (pc : PeerConnection)
      → HasSameSession pc (send_message p c now payload pc).0
  unfolding send_message
  send_message-HasSameSession now none pc = record {
    key = refl;
    epoch = refl;
    peer = refl;
    peer_key = refl;
  }
  send_message-HasSameSession now (some payload) pc = send_raw-HasSameSession now payload pc
