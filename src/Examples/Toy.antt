-- ===== src/Examples/Toy.antt =====
-- Concrete primitives and codecs for the examples: they have the laws that the theorems assume of
-- the real ones, and no secrecy.
use go_send.Base.{
  ℕ, zero, suc, ◌+◌, ◌≡◌, ◌≢◌, refl, ap, sym, ◌∙◌, true, false, [], ◌∷◌, ◌++◌, Option, none, some,
  Bytes, is_empty, length, take, drop, text_eq, text_eq_iff, text_eq_refl, take-length-append,
  drop-length-append, if◌then◌else◌, Bool-cases, inl, inr, arith,
}
use go_send.Crypto.{Primitives, IsBase64, IsAead, IsRandom, IsX25519, IsHkdf}
use go_send.Connection.Secure.{SecureFrame, Codec, IsCodec}
use go_send.Messaging.Session.{Wire}

abbrev pub zeros : ℕ → Bytes
zeros zero = []
zeros (suc n) = 0 ∷ zeros n

-- The key in front of the text.
abbrev open_toy : Bytes → Bytes → Option Bytes
open_toy k c = if text_eq (take (length k) c) k then some (drop (length k) c) else none

abbrev pub toy : Primitives
toy = record {
  gcm_seal = λ k iv m. k ++ m;
  gcm_open = λ k iv c. open_toy k c;
  read_random = λ n. some (zeros 12);
  ed25519_sign = λ k m. zeros 64;
  ed25519_verify = λ k m s. true;
  x25519_public = λ a. a;
  x25519_parse = λ a. some a;
  x25519_ecdh = λ a b. some ((length a + length b + 1) ∷ []);
  hkdf = λ secret salt info. zeros 32;
  b64_encode = λ b. b;
  b64_decode = λ t. some t;
}

pub toy-IsBase64 : IsBase64 toy
toy-IsBase64 = record { decode_encode = λ b. refl; encode_non_empty = λ b h. h }

open_toy-seal : (k m : Bytes) → open_toy k (k ++ m) ≡ some m
open_toy-seal k m = ground (arith, take-length-append k m, drop-length-append k m, text_eq_refl k)

open_toy-other :
    (k k' m : Bytes) → length k ≡ 32 → length k' ≡ 32 → k ≢ k' → open_toy k' (k ++ m) ≡ none
open_toy-other k k' m h h' d = elim (Bool-cases (text_eq (take (length k') (k ++ m)) k')) [
  | inr e ↦ rw e refl
  | inl e ↦
      let same : length k' ≡ length k = omega arith in
      let front : take (length k') (k ++ m) ≡ k =
        ap (λ n. take n (k ++ m)) same ∙ take-length-append k m in
      absurd (d (sym front ∙ (text_eq_iff (take (length k') (k ++ m)) k').0 e))
]

seal-tagged : (k m : Bytes) → length k ≡ 32 → is_empty (k ++ m) ≡ false
seal-tagged [] m h = absurd (omega arith)
seal-tagged (b ∷ k) m h = refl

pub toy-IsAead : IsAead toy
toy-IsAead = record {
  open_seal = λ k iv m. open_toy-seal k m;
  open_other = λ k k' iv m. open_toy-other k k' m;
  seal_tagged = λ k iv m. seal-tagged k m;
}

twelve : (iv : Bytes) → some (zeros 12) ≡ some iv → length iv ≡ 12
twelve iv h = ground arith

pub toy-IsRandom : IsRandom toy
toy-IsRandom = record { nonce_length = λ n. twelve }

ecdh_comm_toy :
    (a b : Bytes) → some ((length a + length b + 1) ∷ []) ≡ some ((length b + length a + 1) ∷ [])
ecdh_comm_toy a b = ground arith

pub toy-IsX25519 : IsX25519 toy
toy-IsX25519 = record { parse_public = λ a. refl; ecdh_comm = ecdh_comm_toy }

pub toy-IsHkdf : IsHkdf toy
toy-IsHkdf = record { key_length = λ secret salt info. refl }

-- A frame as its epoch, two lengths, and its texts.
abbrev marshal_toy : SecureFrame → Bytes
marshal_toy f =
    f.epoch ∷ length f.frame_type ∷ length f.nonce ∷ (f.frame_type ++ (f.nonce ++ f.ciphertext))

abbrev unmarshal_toy : Bytes → Option SecureFrame
unmarshal_toy (e ∷ n ∷ k ∷ rest) = some (record {
  frame_type = take n rest;
  epoch = e;
  nonce = take k (drop n rest);
  ciphertext = drop k (drop n rest);
})
unmarshal_toy _ = none

-- The type of a payload is the payload.
abbrev pub toy_codec : Codec
toy_codec = record {
  marshal_frame = λ f. some (marshal_toy f);
  unmarshal_frame = unmarshal_toy;
  envelope = λ b. some b;
}

unmarshal-marshal : (f : SecureFrame) → unmarshal_toy (marshal_toy f) ≡ some f
unmarshal-marshal f = ground (
  arith,
  take-length-append f.frame_type (f.nonce ++ f.ciphertext),
  drop-length-append f.frame_type (f.nonce ++ f.ciphertext),
  take-length-append f.nonce f.ciphertext,
  drop-length-append f.nonce f.ciphertext,
)

frame-decodes :
    (f : SecureFrame) (b : Bytes) → some (marshal_toy f) ≡ some b → unmarshal_toy b ≡ some f
frame-decodes f b h = ground (arith, unmarshal-marshal f)

frame-non_empty : (f : SecureFrame) (b : Bytes) → some (marshal_toy f) ≡ some b → is_empty b ≡ false
frame-non_empty f b h = ground arith

pub toy-IsCodec : IsCodec toy_codec
toy-IsCodec = record { unmarshal_marshal = frame-decodes; marshal_non_empty = frame-non_empty }

abbrev pub toy_wire : Wire
toy_wire = record {
  marshal_message = λ m. some (0 ∷ m.encrypted_content);
  marshal_ack = λ a. some (1 ∷ a.message_id);
  marshal_error = λ e. some (2 ∷ e.code);
}
