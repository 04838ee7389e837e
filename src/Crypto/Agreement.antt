-- ===== src/Crypto/Agreement.antt =====
-- The two ends of a connection derive the same key, and different challenges give different inputs.
use go_send.Base.{
  ℕ, ◌≡◌, refl, sym, ap, [], ◌∷◌, ◌++◌, some, Bytes, Text, is_empty, length, text_lt_asymm,
  text_lt_antisymm, trim_space, codes, false, length-append, ◌≢◌, Option-cases, inl, inr, arith,
}
use go_send.Crypto.{Primitives, IsBase64, IsX25519, IsHkdf}
use go_send.Crypto.Session.{
  session_hkdf_salt, sort_ids, session_info, derive_session_key_with_context, shared_secret,
  derive_session_key, derive_rekey_session_key,
}

sort_ids_comm : (a b : Text) → sort_ids a b ≡ sort_ids b a
unfolding sort_ids
sort_ids_comm a b = ground (arith, text_lt_asymm a b, text_lt_asymm b a, text_lt_antisymm a b)

session_info_comm :
    (a b : Text) (context : Bytes) → session_info a b context ≡ session_info b a context
unfolding session_info
session_info_comm a b context = rw (sort_ids_comm a b)

append_cancel_left : (a b c : Bytes) → a ++ b ≡ a ++ c → b ≡ c
append_cancel_left [] b c h = h
append_cancel_left (x ∷ a) b c h = append_cancel_left a b c (cc)

longer : (info : Bytes) (x : ℕ) (c : Bytes) → info ≢ info ++ (b'|' ∷ x ∷ c)
longer info x c h = omega (arith, ap (length {A = ℕ}) h, length-append {0} info (b'|' ∷ x ∷ c))

-- For two fixed devices the input of the key derivation determines its context.
pub session_info_injective :
    (a b : Text) (c d : Bytes) → session_info a b c ≡ session_info a b d → c ≡ d
unfolding session_info
session_info_injective a b [] [] h = refl
session_info_injective a b [] (y ∷ d) h = absurd (longer _ y d h)
session_info_injective a b (x ∷ c) [] h = absurd (longer _ x c (sym h))
session_info_injective a b (x ∷ c) (y ∷ d) h =
    let s = sort_ids a b in
    cc (append_cancel_left (s.0 ++ (b'|' ∷ s.1)) (b'|' ∷ x ∷ c) (b'|' ∷ y ∷ d) h)

module _ (p : Primitives) (base64 : IsBase64 p) (x25519 : IsX25519 p) where
  -- Two devices that exchange ephemeral public keys hold the same shared secret.
  shared_secret_comm :
      (a b : Bytes)
      → shared_secret p a (p.b64_encode (p.x25519_public b))
        ≡ shared_secret p b (p.b64_encode (p.x25519_public a))
  unfolding shared_secret
  shared_secret_comm a b = ground (
    arith,
    base64.decode_encode (p.x25519_public a),
    base64.decode_encode (p.x25519_public b),
    x25519.parse_public a,
    x25519.parse_public b,
    x25519.ecdh_comm a b,
  )

  shared_secret-eq :
      (a b secret : Bytes)
      → p.x25519_ecdh a (p.x25519_public b) ≡ some secret
      → shared_secret p a (p.b64_encode (p.x25519_public b)) ≡ some secret
  unfolding shared_secret
  shared_secret-eq a b secret h =
      ground (arith, base64.decode_encode (p.x25519_public b), x25519.parse_public b)

  -- With a shared secret, named devices and a 32-byte challenge, the dialing and the listening
  -- side both get a session key from the challenge, and it is one key.
  pub derive_session_key_agrees :
      (a b secret nonce : Bytes) (id_a id_b challenge : Text)
      → p.x25519_ecdh a (p.x25519_public b) ≡ some secret
      → is_empty secret ≡ false
      → is_empty (trim_space id_a) ≡ false
      → is_empty (trim_space id_b) ≡ false
      → p.b64_decode challenge ≡ some nonce
      → length nonce ≡ 32
      → (key : Bytes) × (derive_session_key p a
            (p.b64_encode (p.x25519_public b))
            id_a
            id_b
            challenge
          ≡ some key)
        × (derive_session_key p b (p.b64_encode (p.x25519_public a)) id_b id_a challenge ≡ some key)
  unfolding derive_session_key_with_context
  derive_session_key_agrees a b secret nonce id_a id_b challenge e s ha hb n l =
      let here = shared_secret-eq a b secret e in
      let there = shared_secret_comm a b in
      let info = session_info_comm id_a id_b nonce in
      (
        p.hkdf secret session_hkdf_salt (session_info id_a id_b nonce),
        unfold derive_session_key in ground (arith, here, info),
        unfold derive_session_key in ground (arith, here, there, info),
      )

  -- In a rekey the initiator and the responder get one key for the epoch.
  pub derive_rekey_session_key_agrees :
      (format_uint : ℕ → Text) (a b secret : Bytes) (id_a id_b : Text) (epoch : ℕ)
      → p.x25519_ecdh a (p.x25519_public b) ≡ some secret
      → is_empty secret ≡ false
      → is_empty (trim_space id_a) ≡ false
      → is_empty (trim_space id_b) ≡ false
      → (key : Bytes) × (derive_rekey_session_key p format_uint a
            (p.b64_encode (p.x25519_public b))
            id_a
            id_b
            epoch
          ≡ some key)
        × (derive_rekey_session_key p format_uint b
              (p.b64_encode (p.x25519_public a))
              id_b
              id_a
              epoch
            ≡ some key)
  unfolding derive_rekey_session_key derive_session_key_with_context
  derive_rekey_session_key_agrees format_uint a b secret id_a id_b epoch e s ha hb =
      let here = shared_secret-eq a b secret e in
      let there = shared_secret_comm a b in
      let context = codes "rekey|" ++ format_uint epoch in
      let info = session_info_comm id_a id_b context in
      (
        p.hkdf secret session_hkdf_salt (session_info id_a id_b context),
        ground (arith, here, info),
        ground (arith, here, there, info),
      )

-- A session key of a rekey has 32 bytes.
pub derive_rekey_session_key-length :
    (p : Primitives) (hkdf : IsHkdf p) (format_uint : ℕ → Text) (a : Bytes) (peer id_a id_b : Text)
    (epoch : ℕ) (key : Bytes)
    → derive_rekey_session_key p format_uint a peer id_a id_b epoch ≡ some key
    → length key ≡ 32
unfolding derive_rekey_session_key derive_session_key_with_context
derive_rekey_session_key-length p hkdf format_uint a peer id_a id_b epoch key h =
    elim (Option-cases (shared_secret p a peer)) [
      | inl e ↦ absurd (ground (arith, h, e))
      | inr (secret, e) ↦
          let info = session_info id_a id_b (codes "rekey|" ++ format_uint epoch) in
          ground (arith, h, e, hkdf.key_length secret session_hkdf_salt info)
    ]
