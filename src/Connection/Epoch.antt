-- ===== src/Connection/Epoch.antt =====
-- Session keys and epochs: RotateSessionKey against encryptPayload and decryptPayload.
use go_send.Base.{
  is_empty-length, ℕ, ◌+◌, ◌^◌, ◌<◌, ◌≡◌, true, false, none, some, Bytes, arith, is_empty, length,
  text_eq_refl, ◌==◌, ◌↔◌, Option-cases, inl, inr, if◌then◌else◌,
}
use go_send.Crypto.{Primitives, IsBase64, IsAead, IsRandom, encrypt, decrypt}
use go_send.Connection.State.{PeerConnection, rotate_session_key}
use go_send.Connection.Secure.{
  Codec, IsCodec, encrypt_payload, decrypt_payload, key_for_epoch, secure_frame_type,
}

-- A rotation succeeds exactly for a non-empty key and the epoch after the current one.
pub rotate_session_key_iff :
    (now : ℕ) (key : Bytes) (epoch : ℕ) (pc : PeerConnection)
    → pc.session_epoch + 1 < 2 ^ 64
    → ((rotate_session_key now key epoch pc).1 ≡ none)
      ↔ ((is_empty key ≡ false) × (epoch ≡ pc.session_epoch + 1))
unfolding rotate_session_key
rotate_session_key_iff now key epoch pc h = (λ e. ground arith, λ e. ground arith)

-- After a rotation frames of the new epoch are opened with the new key, frames of the epoch before
-- it with the old key, and of the frames of any other epoch none is opened.
pub key_for_epoch-rotate :
    (now : ℕ) (key : Bytes) (pc : PeerConnection) (epoch : ℕ)
    → pc.session_epoch + 1 < 2 ^ 64
    → is_empty key ≡ false
    → is_empty pc.session_key ≡ false
    → key_for_epoch (rotate_session_key now key (pc.session_epoch + 1) pc).0 epoch ≡ (
        if epoch == pc.session_epoch + 1
        then some key
        else if epoch == pc.session_epoch
        then some pc.session_key
        else none)
unfolding key_for_epoch rotate_session_key
key_for_epoch-rotate now key pc epoch h k s = ground arith

-- The previous epoch, if there is one, is the one before the current epoch.
pub record HasEpochs (pc : PeerConnection) : Type 0 where
  pub adjacent : pc.has_previous_session ≡ true → pc.previous_session_epoch + 1 ≡ pc.session_epoch

-- Every attempt to rotate keeps them adjacent.
rotate_session_key-HasEpochs :
    (now : ℕ) (key : Bytes) (epoch : ℕ) (pc : PeerConnection)
    → HasEpochs pc
    → HasEpochs (rotate_session_key now key epoch pc).0
unfolding rotate_session_key
rotate_session_key-HasEpochs now key epoch pc h = record { adjacent = ground (arith, h.adjacent) }

module _ (p : Primitives) (c : Codec) (base64 : IsBase64 p) (aead : IsAead p) (random : IsRandom p)
    (codec : IsCodec c) where
  -- The parts of a frame that encryptPayload made.
  encrypt_payload-parts :
      (sender : PeerConnection) (payload bytes : Bytes)
      → encrypt_payload p c sender payload ≡ some bytes
      → (iv : Bytes) × (length iv ≡ 12)
        × (length sender.session_key ≡ 32)
        × (c.unmarshal_frame bytes
            ≡ some (record {
              frame_type = secure_frame_type;
              epoch = sender.session_epoch;
              nonce = p.b64_encode iv;
              ciphertext = p.b64_encode (p.gcm_seal sender.session_key iv payload);
            }))
  unfolding encrypt_payload encrypt
  encrypt_payload-parts sender payload bytes h = elim (Option-cases (p.read_random sender.draws)) [
    | inl e ↦ absurd (ground arith)
    | inr (iv, e) ↦ (
      iv,
      random.nonce_length sender.draws iv e,
      ground arith,
      codec.unmarshal_marshal _ bytes (ground arith),
    )
  ]

  -- A frame is opened by every connection that holds the sender's key for the sender's epoch, as
  -- its current key or as its previous one.
  pub decrypt_payload-encrypt_payload :
      (sender receiver : PeerConnection) (payload bytes : Bytes)
      → encrypt_payload p c sender payload ≡ some bytes
      → key_for_epoch receiver sender.session_epoch ≡ some sender.session_key
      → decrypt_payload p c receiver bytes ≡ some payload
  unfolding decrypt_payload decrypt
  decrypt_payload-encrypt_payload sender receiver payload bytes h k =
      let parts = encrypt_payload-parts sender payload bytes h in
      let key = sender.session_key in
      let ct = p.gcm_seal key parts.0 payload in
      ground (
        arith,
        parts,
        base64.decode_encode parts.0,
        base64.decode_encode ct,
        base64.encode_non_empty parts.0 (is_empty-length parts.0 11 parts.1),
        base64.encode_non_empty ct (aead.seal_tagged key parts.0 payload parts.2),
        aead.seal_tagged key parts.0 payload parts.2,
        aead.open_seal key parts.0 payload,
        text_eq_refl secure_frame_type,
      )

  -- A frame of the next epoch is not opened by a connection that has not rotated yet.
  pub decrypt_payload-ahead :
      (sender receiver : PeerConnection) (payload bytes : Bytes)
      → encrypt_payload p c sender payload ≡ some bytes
      → HasEpochs receiver
      → sender.session_epoch ≡ receiver.session_epoch + 1
      → decrypt_payload p c receiver bytes ≡ none
  unfolding decrypt_payload key_for_epoch
  decrypt_payload-ahead sender receiver payload bytes h v e =
      let parts = encrypt_payload-parts sender payload bytes h in
      ground (
        arith,
        parts,
        v.adjacent,
        base64.decode_encode parts.0,
        base64.decode_encode (p.gcm_seal sender.session_key parts.0 payload),
      )
