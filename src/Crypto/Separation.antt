-- ===== src/Crypto/Separation.antt =====
-- The session keys of two devices come from different inputs of the key derivation.
use go_send.Base.{
  ℕ, ◌≤◌, ◌<◌, ◌≡◌, ◌≢◌, ◌^◌, ap, ◌++◌, some, Bytes, Text, codes, length, Option-cases, inl, inr,
  arith,
}
use go_send.Crypto.{Primitives}
use go_send.Crypto.Session.{
  session_hkdf_salt, session_info, derive_session_key_with_context, shared_secret,
  derive_session_key, derive_rekey_session_key,
}
use go_send.Crypto.Agreement.{session_info_injective}

-- strconv.FormatUint in base 10: different numbers differ, and a uint64 has at most 20 digits.
pub record IsFormatUint (format_uint : ℕ → Text) : Type 0 where
  pub injective : (m n : ℕ) → format_uint m ≡ format_uint n → m ≡ n
  pub digits : (n : ℕ) → n < 2 ^ 64 → length (format_uint n) ≤ 20

-- A key that HKDF makes of this input and of the secret that two ephemeral keys share.
pub record IsKeyOf (p : Primitives) (private : Bytes) (public : Text) (info key : Bytes)
    : Type 0 where
  pub secret : Bytes
  pub shared : shared_secret p private public ≡ some secret
  pub key_is : key ≡ p.hkdf secret session_hkdf_salt info

module _ (p : Primitives) where
  with_context-IsKeyOf :
      (private : Bytes) (public : Text) (secret : Bytes) (id_a id_b : Text) (context key : Bytes)
      → shared_secret p private public ≡ some secret
      → derive_session_key_with_context p secret id_a id_b context ≡ some key
      → IsKeyOf p private public (session_info id_a id_b context) key
  unfolding derive_session_key_with_context
  with_context-IsKeyOf private public secret id_a id_b context key e h = record {
    secret = secret;
    shared = e;
    key_is = ground (arith, h);
  }

  handshake-IsKeyOf :
      (private : Bytes) (public id_a id_b challenge : Text) (key : Bytes)
      → derive_session_key p private public id_a id_b challenge ≡ some key
      → (nonce : Bytes) × (length nonce ≡ 32)
        × IsKeyOf p private public (session_info id_a id_b nonce) key
  unfolding derive_session_key
  handshake-IsKeyOf private public id_a id_b challenge key h =
      elim (Option-cases (shared_secret p private public)) [
        | inl e ↦ absurd (ground (arith, h, e))
        | inr (secret, e) ↦ elim (Option-cases (p.b64_decode challenge)) [
          | inl d ↦ absurd (ground (arith, h, e, d))
          | inr (nonce, d) ↦ (
            nonce,
            ground (arith, h, e, d),
            with_context-IsKeyOf private public secret id_a id_b nonce key e
                (ground (arith, h, e, d)),
          )
        ]
      ]

  rekey-IsKeyOf :
      (format_uint : ℕ → Text) (private : Bytes) (public id_a id_b : Text) (epoch : ℕ) (key : Bytes)
      → derive_rekey_session_key p format_uint private public id_a id_b epoch ≡ some key
      → IsKeyOf p private public (session_info id_a id_b (codes "rekey|" ++ format_uint epoch)) key
  unfolding derive_rekey_session_key
  rekey-IsKeyOf format_uint private public id_a id_b epoch key h =
      elim (Option-cases (shared_secret p private public)) [
        | inl e ↦ absurd (ground (arith, h, e))
        | inr (secret, e) ↦
            with_context-IsKeyOf private public secret id_a id_b
              (codes "rekey|" ++ format_uint epoch) key e (ground (arith, h, e))
      ]

prefix_cancel : (a b : Text) → codes "rekey|" ++ a ≡ codes "rekey|" ++ b → a ≡ b
prefix_cancel a b h = cc

-- A challenge nonce is longer than the context of a rekey.
nonce_apart :
    (format_uint : ℕ → Text) (format : IsFormatUint format_uint) (nonce : Bytes) (n : ℕ)
    → length nonce ≡ 32
    → n < 2 ^ 64
    → nonce ≢ codes "rekey|" ++ format_uint n
nonce_apart format_uint format nonce n long h e =
    absurd (omega (arith, long, format.digits n h, ap (length {A = ℕ}) e))

-- The key of a handshake and the keys of two rekeys in different epochs, for the same two devices,
-- for epochs below 2^64 and whatever ephemeral keys were exchanged, are made by HKDF of the shared secrets
-- and of three different inputs.
pub session_keys_apart :
    (p : Primitives) (format_uint : ℕ → Text) (format : IsFormatUint format_uint) (id_a id_b : Text)
    (x y z : Bytes) (x_peer y_peer z_peer challenge : Text) (m n : ℕ) (k0 k1 k2 : Bytes)
    → m < 2 ^ 64
    → n < 2 ^ 64
    → m ≢ n
    → derive_session_key p x x_peer id_a id_b challenge ≡ some k0
    → derive_rekey_session_key p format_uint y y_peer id_a id_b m ≡ some k1
    → derive_rekey_session_key p format_uint z z_peer id_a id_b n ≡ some k2
    → (i0 : Bytes) × (i1 : Bytes) × (i2 : Bytes) × IsKeyOf p x x_peer i0 k0
      × IsKeyOf p y y_peer i1 k1
      × IsKeyOf p z z_peer i2 k2
      × (i0 ≢ i1)
      × (i0 ≢ i2)
      × (i1 ≢ i2)
session_keys_apart p format_uint format id_a id_b x y z x_peer y_peer z_peer challenge m n k0 k1 k2
      hm hn apart h0 h1 h2 =
    let (nonce, long, key0) = handshake-IsKeyOf p x x_peer id_a id_b challenge k0 h0 in
    let c1 = codes "rekey|" ++ format_uint m in
    let c2 = codes "rekey|" ++ format_uint n in
    (
      session_info id_a id_b nonce,
      session_info id_a id_b c1,
      session_info id_a id_b c2,
      key0,
      rekey-IsKeyOf p format_uint y y_peer id_a id_b m k1 h1,
      rekey-IsKeyOf p format_uint z z_peer id_a id_b n k2 h2,
      λ e.
          nonce_apart format_uint format nonce m long hm
            (session_info_injective id_a id_b nonce c1 e),
      λ e.
          nonce_apart format_uint format nonce n long hn
            (session_info_injective id_a id_b nonce c2 e),
      λ e. apart (
          format.injective m n (
            prefix_cancel (format_uint m) (format_uint n)
              (session_info_injective id_a id_b c1 c2 e))),
    )
