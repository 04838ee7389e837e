-- ===== src/Endpoint/Ranked.antt =====
-- Sorting by health: the order of the addresses, and that none is lost or doubled.
use go_send.Base.{
  ℕ, ◌≡◌, not, ◌&&◌, ◌||◌, ltb, ◌==◌, text_eq, text_lt, refl, Bool, true, false, List, [], ◌∷◌,
  Text, text_eq_iff, text_lt_asymm, text_lt_cotrans, All, Bool-cases, inl, inr, arith,
}
use go_send.Endpoint.Health.{contains, is_before, insert_ranked, sort_ranked}

-- Whether one address is to be tried before another: it has the higher score, or the same score and
-- comes first by name.
abbrev pub goes_first : (Text → ℕ) → Text → Text → Bool
goes_first score x y = ltb (score y) (score x) || (score x == score y && text_lt x y)

-- No address stands behind one that it goes before.
abbrev pub IsRanked : (Text → ℕ) → List Text → Type 0
IsRanked score [] = Unit
IsRanked score (x ∷ xs) = All (λ y. goes_first score y x ≡ false) xs × IsRanked score xs

abbrev pub occurs : Text → List Text → Bool
occurs x [] = false
occurs x (y ∷ ys) = text_eq y x || occurs x ys

-- No address stands there twice.
abbrev pub distinct : List Text → Bool
distinct [] = true
distinct (x ∷ xs) = not (occurs x xs) && distinct xs

is_before-goes_first : (score : Text → ℕ) (x y : Text) → is_before score x y ≡ goes_first score x y
unfolding is_before
is_before-goes_first score x y = ground arith

pub contains-occurs : (x : Text) (xs : List Text) → contains x xs ≡ occurs x xs
contains-occurs x [] = refl
contains-occurs x (y ∷ ys) = ground (arith, contains-occurs x ys)

goes_first_asymm :
    (score : Text → ℕ) (x y : Text) → goes_first score x y ≡ true → goes_first score y x ≡ false
goes_first_asymm score x y h = ground (arith, h, text_lt_asymm x y)

goes_first_cotrans :
    (score : Text → ℕ) (x y z : Text)
    → goes_first score x y ≡ false
    → goes_first score y z ≡ false
    → goes_first score x z ≡ false
goes_first_cotrans score x y z h k = ground (arith, h, k, text_lt_cotrans x y z)

All-before :
    (score : Text → ℕ) (x y : Text) (ys : List Text)
    → goes_first score y x ≡ false
    → All (λ z. goes_first score z y ≡ false) ys
    → All (λ z. goes_first score z x ≡ false) ys
All-before score x y [] h a = tt
All-before score x y (z ∷ zs) h (a, others) =
    (goes_first_cotrans score z y x a h, All-before score x y zs h others)

insert_ranked-All :
    (score : Text → ℕ) (x y : Text) (ys : List Text)
    → goes_first score x y ≡ false
    → All (λ z. goes_first score z y ≡ false) ys
    → All (λ z. goes_first score z y ≡ false) (insert_ranked score x ys)
unfolding insert_ranked
insert_ranked-All score x y [] h a = (h, tt)
insert_ranked-All score x y (z ∷ zs) h (a, rest) =
    let step = is_before-goes_first score z x in
    elim (Bool-cases (goes_first score z x)) [
      | inl e ↦ rw (insert_ranked, step, e) (a, insert_ranked-All score x y zs h rest)
      | inr e ↦ rw (insert_ranked, step, e) (h, (a, rest))
    ]

insert_ranked-IsRanked :
    (score : Text → ℕ) (x : Text) (ys : List Text)
    → IsRanked score ys
    → IsRanked score (insert_ranked score x ys)
unfolding insert_ranked
insert_ranked-IsRanked score x [] h = (tt, tt)
insert_ranked-IsRanked score x (y ∷ ys) (a, h) =
    let step = is_before-goes_first score y x in
    elim (Bool-cases (goes_first score y x)) [
      | inl e ↦
          rw (insert_ranked, step, e)
            (
              insert_ranked-All score x y ys (goes_first_asymm score y x e) a,
              insert_ranked-IsRanked score x ys h,
            )
      | inr e ↦ rw (insert_ranked, step, e) ((e, All-before score x y ys e a), (a, h))
    ]

pub sort_ranked-IsRanked :
    (score : Text → ℕ) (xs : List Text) → IsRanked score (sort_ranked score xs)
unfolding sort_ranked
sort_ranked-IsRanked score [] = tt
sort_ranked-IsRanked score (x ∷ xs) =
    insert_ranked-IsRanked score x (sort_ranked score xs) (sort_ranked-IsRanked score xs)

insert_ranked-occurs :
    (score : Text → ℕ) (x y : Text) (ys : List Text)
    → occurs x (insert_ranked score y ys) ≡ (text_eq y x || occurs x ys)
unfolding insert_ranked
insert_ranked-occurs score x y [] = ground arith
insert_ranked-occurs score x y (z ∷ zs) = ground (arith, insert_ranked-occurs score x y zs)

pub sort_ranked-occurs :
    (score : Text → ℕ) (x : Text) (xs : List Text) → occurs x (sort_ranked score xs) ≡ occurs x xs
unfolding sort_ranked
sort_ranked-occurs score x [] = refl
sort_ranked-occurs score x (y ∷ ys) =
    ground
      (arith, insert_ranked-occurs score x y (sort_ranked score ys), sort_ranked-occurs score x ys)

insert_ranked-distinct :
    (score : Text → ℕ) (x : Text) (ys : List Text)
    → distinct (insert_ranked score x ys) ≡ (not (occurs x ys) && distinct ys)
unfolding insert_ranked
insert_ranked-distinct score x [] = refl
insert_ranked-distinct score x (y ∷ ys) = ground (
  arith,
  insert_ranked-distinct score x ys,
  insert_ranked-occurs score y x ys,
  text_eq_iff x y,
  text_eq_iff y x,
)

pub sort_ranked-distinct :
    (score : Text → ℕ) (xs : List Text) → distinct (sort_ranked score xs) ≡ distinct xs
unfolding sort_ranked
sort_ranked-distinct score [] = refl
sort_ranked-distinct score (x ∷ xs) = ground (
  arith,
  insert_ranked-distinct score x (sort_ranked score xs),
  sort_ranked-occurs score x xs,
  sort_ranked-distinct score xs,
)
