-- ===== src/Base/Dict.antt =====
-- A Go map with string keys, as an association list.
use mathlib.Core.Path.{◌≡◌, refl}
use mathlib.Core.Bool.{Bool, not}
use mathlib.Core.List.{List, [], ◌∷◌}
use mathlib.Core.Option.{Option, none, some}
use native.Mathlib.Omega.{arith}
use go_send.Base.Tests.{if◌then◌else◌}
use go_send.Base.Strings.{Bytes, text_eq, text_eq_iff, text_eq_refl}

abbrev pub Dict {ℓ} : Type ℓ → Type ℓ
Dict V = List (Bytes × V)

module _ {ℓ} {V : Type ℓ} where
  -- `v, ok := m[k]`.
  unfoldable pub lookup : Bytes → Dict V → Option V
  lookup k [] = none
  lookup k ((j, v) ∷ m) = if text_eq j k then some v else lookup k m

  -- `m[k] = v`.
  unfoldable pub insert : Bytes → V → Dict V → Dict V
  insert k v [] = (k, v) ∷ []
  insert k v ((j, w) ∷ m) = if text_eq j k then (k, v) ∷ m else (j, w) ∷ insert k v m

  -- `for k := range m { if !keep(k) { delete(m, k) } }`.
  unfoldable pub keep_keys : (Bytes → Bool) → Dict V → Dict V
  keep_keys p [] = []
  keep_keys p ((j, w) ∷ m) = let rest = keep_keys p m in if p j then (j, w) ∷ rest else rest

  -- `delete(m, k)`.
  unfoldable pub delete : Bytes → Dict V → Dict V
  unfolding keep_keys
  delete k m = keep_keys (λ j. not (text_eq j k)) m

module _ {ℓ} {V : Type ℓ} where
  pub lookup-insert :
      (k j : Bytes) (v : V) (m : Dict V)
      → lookup j (insert k v m) ≡ (if text_eq k j then some v else lookup j m)
  unfolding lookup insert
  lookup-insert k j v [] = refl
  lookup-insert k j v ((i, w) ∷ m) =
      ground (arith, text_eq_iff k j, text_eq_iff i k, text_eq_iff i j, lookup-insert k j v m)

  pub lookup-insert_self : (k : Bytes) (v : V) (m : Dict V) → lookup k (insert k v m) ≡ some v
  lookup-insert_self k v m = simp (lookup-insert, text_eq_refl)

  pub lookup-keep_keys :
      (p : Bytes → Bool) (j : Bytes) (m : Dict V)
      → lookup j (keep_keys p m) ≡ (if p j then lookup j m else none)
  unfolding lookup keep_keys
  lookup-keep_keys p j [] = ground arith
  lookup-keep_keys p j ((i, w) ∷ m) = ground (arith, text_eq_iff i j, lookup-keep_keys p j m)

  pub lookup-delete :
      (k j : Bytes) (m : Dict V)
      → lookup j (delete k m) ≡ (if text_eq j k then none else lookup j m)
  unfolding delete
  lookup-delete k j m = rw (lookup-keep_keys (λ i. not (text_eq i k)) j m) (ground arith)
