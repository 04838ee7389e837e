-- ===== src/Crypto/Session.antt =====
-- crypto/ecdh.go and network/handshake.go: the derivation of session keys.
use go_send.Base.{
  ℕ, ◌||◌, ◌∷◌, ◌++◌, Option, none, some, Bytes, Text, codes, ◌==◌, if◌then◌else◌, is_empty, length,
  text_lt, trim_space,
}
use go_send.Crypto.{Primitives}

abbrev pub session_hkdf_salt : Bytes
session_hkdf_salt = codes "p2pchat-session-v1"

-- sort.Strings of two IDs.
unfoldable pub sort_ids : Text → Text → Text × Text
sort_ids a b = if text_lt b a then (b, a) else (a, b)

unfoldable pub session_info : Text → Text → Bytes → Bytes
session_info device_id_a device_id_b context =
    let (first, second) = sort_ids device_id_a device_id_b in
    let info = first ++ (b'|' ∷ second) in
    if is_empty context then info else info ++ (b'|' ∷ context)

module _ (p : Primitives) where
  -- DeriveSessionKeyWithContext.
  unfoldable pub derive_session_key_with_context : Bytes → Text → Text → Bytes → Option Bytes
  derive_session_key_with_context shared_secret device_id_a device_id_b context =
      if is_empty shared_secret
      then none
      else if is_empty (trim_space device_id_a) || is_empty (trim_space device_id_b)
      then none
      else some
          (p.hkdf shared_secret session_hkdf_salt (session_info device_id_a device_id_b context))

  -- ComputeX25519SharedSecret with the peer's public key as it came over the wire.
  unfoldable pub shared_secret : Bytes → Text → Option Bytes
  shared_secret private_key peer_public_base64 = elim (p.b64_decode peer_public_base64) [
    | none ↦ none
    | some raw ↦ elim (p.x25519_parse raw) [
      | none ↦ none
      | some peer_public ↦ p.x25519_ecdh private_key peer_public
    ]
  ]

  -- deriveSessionKey.
  unfoldable pub derive_session_key : Bytes → Text → Text → Text → Text → Option Bytes
  derive_session_key private_key peer_public_base64 local_id peer_id challenge_base64 =
      elim (shared_secret private_key peer_public_base64) [
        | none ↦ none
        | some secret ↦ elim (p.b64_decode challenge_base64) [
          | none ↦ none
          | some nonce ↦
              if length nonce == 32
              then derive_session_key_with_context secret local_id peer_id nonce
              else none
        ]
      ]

  -- deriveRekeySessionKey. `format_uint` is strconv.FormatUint in base 10.
  unfoldable pub derive_rekey_session_key :
      (ℕ → Text) → Bytes → Text → Text → Text → ℕ → Option Bytes
  derive_rekey_session_key format_uint private_key peer_public_base64 local_id peer_id epoch =
      elim (shared_secret private_key peer_public_base64) [
        | none ↦ none
        | some secret ↦
            derive_session_key_with_context secret local_id peer_id
              (codes "rekey|" ++ format_uint epoch)
      ]
