-- ===== src/Prelude/Lists.antt =====
-- Lists measured by native numbers, under the library's names.
use Prim.Native.Nat.{ℕ, zero, suc, min}
use mathlib.Core.Path.{◌≡◌}
use mathlib.Core.Logic.{◌⊎◌, inl, inr}
use mathlib.Core.List.{List, [], ◌∷◌, ◌++◌}
use native.Mathlib.Omega.{arith}

module _ {ℓ} {A : Type ℓ} where
  abbrev pub length : List A → ℕ
  length [] = 0
  length (x ∷ xs) = suc (length xs)

  abbrev pub take : ℕ → List A → List A
  take zero xs = []
  take (suc n) [] = []
  take (suc n) (x ∷ xs) = x ∷ take n xs

  abbrev pub drop : ℕ → List A → List A
  drop zero xs = xs
  drop (suc n) [] = []
  drop (suc n) (x ∷ xs) = drop n xs

  pub length-take : (n : ℕ) (xs : List A) → length (take n xs) ≡ min n (length xs)
  length-take zero xs = omega arith
  length-take (suc n) [] = omega arith
  length-take (suc n) (x ∷ xs) = omega (arith, length-take n xs)

module _ {A : Type 0} where
  -- Membership by recursion, which the tactics read as a sum.
  abbrev pub Elem : A → List A → Type 0
  Elem a [] = ⊥
  Elem a (x ∷ xs) = (a ≡ x) ⊎ Elem a xs

  abbrev pub All : (A → Type 0) → List A → Type 0
  All P [] = Unit
  All P (x ∷ xs) = P x × All P xs

  pub Elem-take : (n : ℕ) (xs : List A) (a : A) → Elem a (take n xs) → Elem a xs
  Elem-take zero xs a h = absurd h
  Elem-take (suc n) [] a h = absurd h
  Elem-take (suc n) (x ∷ xs) a (inl e) = inl e
  Elem-take (suc n) (x ∷ xs) a (inr h) = inr (Elem-take n xs a h)

  pub Elem-append_left : (xs ys : List A) (a : A) → Elem a xs → Elem a (xs ++ ys)
  Elem-append_left [] ys a h = absurd h
  Elem-append_left (x ∷ xs) ys a (inl e) = inl e
  Elem-append_left (x ∷ xs) ys a (inr h) = inr (Elem-append_left xs ys a h)

  pub Elem-append_right : (xs ys : List A) (a : A) → Elem a ys → Elem a (xs ++ ys)
  Elem-append_right [] ys a h = h
  Elem-append_right (x ∷ xs) ys a h = inr (Elem-append_right xs ys a h)
