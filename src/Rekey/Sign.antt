-- ===== src/Rekey/Sign.antt =====
-- signRekeyRequest, signRekeyResponse, verifyRekeyRequest and verifyRekeyResponse.
use go_send.Base.{
  ℕ, ◌≡◌, true, false, not, Bool, ◌||◌, [], Option, none, some, Bytes, Text, codes, is_empty,
  text_eq, ◌==◌, if◌then◌else◌, arith,
}
use go_send.Timestamp.{within_timestamp_skew}
use go_send.Crypto.{Primitives, IsBase64, sign, verify, verify_signed, decode_peer_public_key}
use go_send.Protocol.{Rekey}
use go_send.Connection.State.{close_with_error}
use go_send.Handshake.Options.{LocalIdentity}
use go_send.Handshake.Honest.{IsIdentity}
use go_send.Messaging.Node.{reported, signature_failed}
use go_send.Messaging.Session.{Session, log_event}

abbrev pub type_rekey_request : Text
type_rekey_request = codes "rekey_request"

abbrev pub type_rekey_response : Text
type_rekey_response = codes "rekey_response"

-- conn.Close().
abbrev pub shut : Session → Session
shut s = record s { conn = close_with_error none s.conn }

-- `marshal` is json.Marshal of a RekeyRequest or a RekeyResponse.
module _ (p : Primitives) (marshal : Rekey → Option Bytes) where
  unfoldable pub sign_rekey : Bytes → Rekey → Option Rekey
  sign_rekey private_key m = elim (marshal (record m { signature = [] })) [
    | none ↦ none
    | some raw ↦ elim (sign p private_key raw) [
      | none ↦ none
      | some sig ↦ some (record m { signature = p.b64_encode sig })
    ]
  ]

  unfoldable pub verify_rekey : Text → Rekey → Bool
  verify_rekey peer_public_key m =
      verify_signed p peer_public_key (marshal (record m { signature = [] })) m.signature

  -- The guards that handleRekeyRequest and handleRekeyResponse share: the session that they
  -- return with, or none to go on.
  unfoldable pub refuse_rekey : ℕ → Rekey → Session → Option Session
  refuse_rekey now m s =
      let peer = s.conn.peer_device_id in
      if is_empty peer
        || is_empty m.from_device_id
        || is_empty m.x25519_public_key
        || is_empty m.signature
        || m.epoch == 0
      then some (shut s)
      else if not (text_eq m.from_device_id peer)
      then some (shut (log_event reported s))
      else if not (within_timestamp_skew now m.timestamp)
      then some (shut (log_event reported s))
      else if not (verify_rekey s.conn.peer_public_key m)
      then some (shut (log_event (signature_failed peer) (log_event reported s)))
      else none

  -- What an honest device signs verifies under its key.
  pub verify_rekey-sign_rekey :
      IsBase64 p
      → (i : LocalIdentity) (m signed : Rekey) (raw : Bytes) → IsIdentity p i
      → marshal (record m { signature = [] }) ≡ some raw
      → is_empty raw ≡ false
      → sign_rekey i.ed25519_private_key m ≡ some signed
      → verify_rekey (p.b64_encode i.ed25519_public_key) signed ≡ true
  unfolding sign_rekey sign verify_rekey verify_signed verify decode_peer_public_key
  verify_rekey-sign_rekey base64 i m signed raw h e n q =
      let signature = p.ed25519_sign i.ed25519_private_key raw in
      ground (
        arith,
        e,
        n,
        q,
        h.private_length,
        h.public_length,
        h.signature_length raw,
        h.verifies raw,
        base64.decode_encode i.ed25519_public_key,
        base64.decode_encode signature,
      )
