-- ===== src/Connection/Secure.antt =====
-- network/connection.go: encryptPayload and decryptPayload.
use go_send.Base.{
  ℕ, ◌≡◌, false, not, ◌&&◌, ◌||◌, Option, none, some, Bytes, Text, codes, ◌==◌, if◌then◌else◌,
  is_empty, text_eq,
}
use go_send.Crypto.{Primitives, encrypt, decrypt}
use go_send.Connection.State.{PeerConnection}

pub record SecureFrame : Type 0 where
  pub frame_type : Text
  pub epoch : ℕ
  pub nonce : Text
  pub ciphertext : Text

abbrev pub secure_frame_type : Text
secure_frame_type = codes "secure_frame"

-- json.Marshal and json.Unmarshal of secure frames, and of the envelope of a payload.
pub record Codec : Type 0 where
  pub marshal_frame : SecureFrame → Option Bytes
  pub unmarshal_frame : Bytes → Option SecureFrame
  pub envelope : Bytes → Option Text

-- JSON decoding undoes encoding, and no encoding is empty.
pub record IsCodec (c : Codec) : Type 0 where
  pub unmarshal_marshal :
      (f : SecureFrame) (b : Bytes) → c.marshal_frame f ≡ some b → c.unmarshal_frame b ≡ some f
  pub marshal_non_empty :
      (f : SecureFrame) (b : Bytes) → c.marshal_frame f ≡ some b → is_empty b ≡ false

module _ (p : Primitives) (c : Codec) where
  -- encryptPayload.
  unfoldable pub encrypt_payload : PeerConnection → Bytes → Option Bytes
  encrypt_payload pc payload = elim (encrypt p pc.draws pc.session_key payload) [
    | none ↦ none
    | some (ciphertext, nonce) ↦ c.marshal_frame (record {
      frame_type = secure_frame_type;
      epoch = pc.session_epoch;
      nonce = p.b64_encode nonce;
      ciphertext = p.b64_encode ciphertext;
    })
  ]

-- The key that decryptPayload takes for a frame's epoch.
unfoldable pub key_for_epoch : PeerConnection → ℕ → Option Bytes
key_for_epoch pc epoch =
    if epoch == pc.session_epoch
    then some pc.session_key
    else if pc.has_previous_session && epoch == pc.previous_session_epoch
    then some pc.previous_session_key
    else if epoch == 0 && pc.session_epoch == 0
    then some pc.session_key
    else none

module _ (p : Primitives) (c : Codec) where
  -- decryptPayload.
  unfoldable pub decrypt_payload : PeerConnection → Bytes → Option Bytes
  decrypt_payload pc frame_payload = elim (c.unmarshal_frame frame_payload) [
    | none ↦ none
    | some frame ↦
        if not (text_eq frame.frame_type secure_frame_type)
          || is_empty frame.nonce
          || is_empty frame.ciphertext
        then none
        else elim (p.b64_decode frame.nonce) [
          | none ↦ none
          | some nonce ↦ elim (p.b64_decode frame.ciphertext) [
            | none ↦ none
            | some ciphertext ↦ elim (key_for_epoch pc frame.epoch) [
              | none ↦ none
              | some key ↦ decrypt p key nonce ciphertext
            ]
          ]
        ]
  ]
