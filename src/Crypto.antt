-- ===== src/Crypto.antt =====
-- crypto/: the checks around AES-256-GCM, Ed25519, X25519 and HKDF. The primitives themselves, base64
-- and the random source are not the repository's code: they are the record Primitives.
pub mod Session
pub mod Agreement
pub mod Separation
use go_send.Base.{
  ℕ, ◌≡◌, ◌≢◌, Bool, true, false, not, ◌||◌, Option, none, some, Bytes, Text, ◌==◌, if◌then◌else◌,
  is_empty, length,
}

pub record Primitives : Type 0 where
  -- aead.Seal and aead.Open: key, nonce, text.
  pub gcm_seal : Bytes → Bytes → Bytes → Bytes
  pub gcm_open : Bytes → Bytes → Bytes → Option Bytes
  -- The n-th reading of crypto/rand, 12 bytes.
  pub read_random : ℕ → Option Bytes
  -- ed25519.Sign and ed25519.Verify.
  pub ed25519_sign : Bytes → Bytes → Bytes
  pub ed25519_verify : Bytes → Bytes → Bytes → Bool
  -- The public key of a private key; curve.NewPublicKey; privateKey.ECDH.
  pub x25519_public : Bytes → Bytes
  pub x25519_parse : Bytes → Option Bytes
  pub x25519_ecdh : Bytes → Bytes → Option Bytes
  -- hkdf.New(sha256.New, secret, salt, info), the first 32 bytes.
  pub hkdf : Bytes → Bytes → Bytes → Bytes
  pub b64_encode : Bytes → Text
  pub b64_decode : Text → Option Bytes

-- Base64 decoding undoes encoding, and only nothing is encoded as nothing.
pub record IsBase64 (p : Primitives) : Type 0 where
  pub decode_encode : (b : Bytes) → p.b64_decode (p.b64_encode b) ≡ some b
  pub encode_non_empty : (b : Bytes) → is_empty b ≡ false → is_empty (p.b64_encode b) ≡ false

-- GCM opens what was sealed with the same key and nonce, refuses it under another 32-byte key,
-- and adds a tag.
pub record IsAead (p : Primitives) : Type 0 where
  pub open_seal : (k iv m : Bytes) → p.gcm_open k iv (p.gcm_seal k iv m) ≡ some m
  pub open_other :
      (k k' iv m : Bytes)
      → length k ≡ 32
      → length k' ≡ 32
      → k ≢ k'
      → p.gcm_open k' iv (p.gcm_seal k iv m) ≡ none
  pub seal_tagged : (k iv m : Bytes) → length k ≡ 32 → is_empty (p.gcm_seal k iv m) ≡ false

-- A reading of the random source has the length that was asked for.
pub record IsRandom (p : Primitives) : Type 0 where
  pub nonce_length : (n : ℕ) (iv : Bytes) → p.read_random n ≡ some iv → length iv ≡ 12

-- Both ends of a Diffie-Hellman exchange get the same secret, and public keys parse.
pub record IsX25519 (p : Primitives) : Type 0 where
  pub parse_public : (a : Bytes) → p.x25519_parse (p.x25519_public a) ≡ some (p.x25519_public a)
  pub ecdh_comm :
      (a b : Bytes) → p.x25519_ecdh a (p.x25519_public b) ≡ p.x25519_ecdh b (p.x25519_public a)

-- HKDF is read for 32 bytes.
pub record IsHkdf (p : Primitives) : Type 0 where
  pub key_length : (secret salt info : Bytes) → length (p.hkdf secret salt info) ≡ 32

abbrev pub aes256_key_size : ℕ
aes256_key_size = 32

abbrev pub gcm_nonce_size : ℕ
gcm_nonce_size = 12

abbrev pub ed25519_public_key_size : ℕ
ed25519_public_key_size = 32

abbrev pub ed25519_private_key_size : ℕ
ed25519_private_key_size = 64

abbrev pub ed25519_signature_size : ℕ
ed25519_signature_size = 64

module _ (p : Primitives) where
  -- Encrypt: ciphertext and IV, with the n-th reading of the random source.
  unfoldable pub encrypt : ℕ → Bytes → Bytes → Option (Bytes × Bytes)
  encrypt n session_key plaintext =
      if length session_key == aes256_key_size
      then elim (p.read_random n) [
        | none ↦ none
        | some iv ↦ some (p.gcm_seal session_key iv plaintext, iv)
      ]
      else none

  -- Decrypt.
  unfoldable pub decrypt : Bytes → Bytes → Bytes → Option Bytes
  decrypt session_key iv ciphertext =
      if not (length session_key == aes256_key_size)
      then none
      else if is_empty ciphertext
      then none
      else if not (length iv == gcm_nonce_size)
      then none
      else p.gcm_open session_key iv ciphertext

  -- Sign.
  unfoldable pub sign : Bytes → Bytes → Option Bytes
  sign private_key message =
      if not (length private_key == ed25519_private_key_size)
      then none
      else if is_empty message
      then none
      else some (p.ed25519_sign private_key message)

  -- Verify.
  unfoldable pub verify : Bytes → Bytes → Bytes → Bool
  verify public_key message signature =
      if not (length public_key == ed25519_public_key_size)
      then false
      else if is_empty message
      then false
      else if not (length signature == ed25519_signature_size)
      then false
      else p.ed25519_verify public_key message signature

  -- decodePeerPublicKey.
  unfoldable pub decode_peer_public_key : Text → Option Bytes
  decode_peer_public_key key_base64 = elim (p.b64_decode key_base64) [
    | none ↦ none
    | some raw ↦ if length raw == ed25519_public_key_size then some raw else none
  ]

  -- The body that the verify functions of peer_manager.go share: verifyPeerAddRequest,
  -- verifyPeerRemove, verifyRekeyRequest, verifyAck and so on. `raw` is the message marshalled
  -- with an empty signature.
  unfoldable pub verify_signed : Text → Option Bytes → Text → Bool
  unfolding decode_peer_public_key verify
  verify_signed peer_public_key raw signature = elim (decode_peer_public_key peer_public_key) [
    | none ↦ false
    | some public_key ↦ elim (p.b64_decode signature) [
      | none ↦ false
      | some sig ↦ elim raw [ none ↦ false | some bytes ↦ verify public_key bytes sig ]
    ]
  ]
