-- ===== src/Connection/Rotations.antt =====
-- Sequences of RotateSessionKey: a connection holds the last two of its keys.
use go_send.Base.{
  ℕ, ◌^◌, ◌≡◌, refl, Option, List, [], ◌∷◌, not, ltb, ◌&&◌, Bool-cases, true, false, none, some,
  Bytes, arith, is_empty, length, ◌==◌, inl, inr, if◌then◌else◌,
}
use go_send.Connection.State.{PeerConnection, rotate_session_key}
use go_send.Connection.Secure.{key_for_epoch}

-- An attempt to rotate: the time, the new key and its epoch.
pub record Rotation : Type 0 where
  pub at : ℕ
  pub key : Bytes
  pub epoch : ℕ

-- The connection after attempts to rotate, one after the other.
unfoldable pub rotate_all : List Rotation → PeerConnection → PeerConnection
rotate_all [] pc = pc
rotate_all (r ∷ rs) pc = rotate_all rs (rotate_session_key r.at r.key r.epoch pc).0

-- The keys of a connection, the current one first: an attempt adds its key if there is one and its
-- epoch is the number of keys so far, which is a uint64.
unfoldable pub keys_after : List Rotation → List Bytes → List Bytes
keys_after [] keys = keys
keys_after (r ∷ rs) keys = keys_after rs (
    if not (is_empty r.key) && (r.epoch == length keys) && ltb r.epoch (2 ^ 64)
    then r.key ∷ keys
    else keys)

-- The connection holds the last two of these keys, and its epoch counts them from 0.
abbrev pub HoldsKeys : List Bytes → PeerConnection → Type 0
HoldsKeys [] pc = ⊥
HoldsKeys (key ∷ []) pc =
    (pc.session_key ≡ key) × (pc.session_epoch ≡ 0) × (pc.has_previous_session ≡ false)
HoldsKeys (key ∷ previous ∷ older) pc =
    (pc.session_key ≡ key)
    × (pc.session_epoch ≡ length (previous ∷ older))
    × (pc.has_previous_session ≡ true)
    × (pc.previous_session_key ≡ previous)
    × (pc.previous_session_epoch ≡ length older)

rotate_session_key-HoldsKeys :
    (r : Rotation) (pc : PeerConnection) (keys : List Bytes)
    → is_empty pc.session_key ≡ false
    → HoldsKeys keys pc
    → let pc' = (rotate_session_key r.at r.key r.epoch pc).0 in
      (is_empty pc'.session_key ≡ false)
      × HoldsKeys
          (if not (is_empty r.key) && (r.epoch == length keys) && ltb r.epoch (2 ^ 64)
            then r.key ∷ keys
            else keys)
          pc'
unfolding rotate_session_key
rotate_session_key-HoldsKeys r pc [] n h = elim h [ ]
rotate_session_key-HoldsKeys r pc (key ∷ []) n h =
    elim (Bool-cases (not (is_empty r.key) && (r.epoch == 1) && ltb r.epoch (2 ^ 64))) [
      | inl e ↦ rw e (ground (arith, e, h, n))
      | inr e ↦ rw e (ground (arith, e, h, n))
    ]
rotate_session_key-HoldsKeys r pc (key ∷ previous ∷ older) n h =
    elim (Bool-cases (
      not (is_empty r.key)
      && (r.epoch == length (key ∷ previous ∷ older))
      && ltb r.epoch (2 ^ 64))) [
        | inl e ↦ rw e (ground (arith, e, h, n))
        | inr e ↦ rw e (ground (arith, e, h, n))
      ]

rotate_all-HoldsKeys :
    (rs : List Rotation) (pc : PeerConnection) (keys : List Bytes)
    → is_empty pc.session_key ≡ false
    → HoldsKeys keys pc
    → (is_empty (rotate_all rs pc).session_key ≡ false)
      × HoldsKeys (keys_after rs keys) (rotate_all rs pc)
unfolding rotate_all keys_after
rotate_all-HoldsKeys [] pc keys n h = (n, h)
rotate_all-HoldsKeys (r ∷ rs) pc keys n h =
    let (n', h') = rotate_session_key-HoldsKeys r pc keys n h in
    rotate_all-HoldsKeys rs (rotate_session_key r.at r.key r.epoch pc).0 _ n' h'

-- The key that opens the frames of an epoch: the last of these keys opens the last epoch, the one
-- before it the epoch before, and no other frame is opened.
abbrev pub key_at : List Bytes → ℕ → Option Bytes
key_at [] epoch = none
key_at (key ∷ []) epoch = if epoch == 0 then some key else none
key_at (key ∷ previous ∷ older) epoch =
    if epoch == length (previous ∷ older)
    then some key
    else if epoch == length older
    then some previous
    else none

key_for_epoch-key_at :
    (keys : List Bytes) (pc : PeerConnection) (epoch : ℕ)
    → is_empty pc.session_key ≡ false
    → HoldsKeys keys pc
    → key_for_epoch pc epoch ≡ key_at keys epoch
unfolding key_for_epoch
key_for_epoch-key_at [] pc epoch n h = elim h [ ]
key_for_epoch-key_at (key ∷ []) pc epoch n h = ground (arith, h, n)
key_for_epoch-key_at (key ∷ previous ∷ older) pc epoch n h = ground (arith, h, n)

-- Whatever rotations are attempted on a connection that holds a key, in epoch 0 and with no previous
-- key: an attempt takes effect exactly if it brings a key and the epoch is the number of keys so
-- far, below 2^64. Frames of the
-- last epoch are opened with the last key, frames of the epoch before it with the key before, and
-- of the frames of any other epoch none is opened.
pub rotate_all-key_at :
    (rs : List Rotation) (pc : PeerConnection) (epoch : ℕ)
    → is_empty pc.session_key ≡ false
    → pc.session_epoch ≡ 0
    → pc.has_previous_session ≡ false
    → key_for_epoch (rotate_all rs pc) epoch ≡ key_at (keys_after rs (pc.session_key ∷ [])) epoch
rotate_all-key_at rs pc epoch n zero_epoch first =
    let (n', h) = rotate_all-HoldsKeys rs pc (pc.session_key ∷ []) n (refl, zero_epoch, first) in
    key_for_epoch-key_at (keys_after rs (pc.session_key ∷ [])) (rotate_all rs pc) epoch n' h
