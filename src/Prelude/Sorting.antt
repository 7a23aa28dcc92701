-- ===== src/Prelude/Sorting.antt =====
-- `list.sort`: the stable sort by a strict order.
use Prim.Native.Nat.{ℕ, zero, suc}
use mathlib.Core.Path.{◌≡◌, refl}
use mathlib.Core.Logic.{◌⊎◌, inl, inr}
use mathlib.Core.Bool.{Bool, true, false}
use mathlib.Core.List.{List, [], ◌∷◌}
use native.Mathlib.Omega.{arith}
use ai_infra_console.Prelude.Tests.{if◌then◌else◌, Bool-cases}
use ai_infra_console.Prelude.Lists.{Elem, All, take, drop, length}

module _ {A : Type 0} where
  -- The row goes in front of those that it does not follow, so equal rows keep their order.
  unfoldable pub insert_by : (A → A → Bool) → A → List A → List A
  insert_by lt x [] = x ∷ []
  insert_by lt x (y ∷ ys) = let rest = insert_by lt x ys in if lt y x then y ∷ rest else x ∷ y ∷ ys

  unfoldable pub sort_by : (A → A → Bool) → List A → List A
  unfolding insert_by
  sort_by lt [] = []
  sort_by lt (x ∷ xs) = insert_by lt x (sort_by lt xs)

  pub length-insert_by :
      (lt : A → A → Bool) (x : A) (ys : List A) → length (insert_by lt x ys) ≡ suc (length ys)
  unfolding insert_by
  length-insert_by lt x [] = refl
  length-insert_by lt x (y ∷ ys) = ground (arith, length-insert_by lt x ys)

  pub length-sort_by : (lt : A → A → Bool) (xs : List A) → length (sort_by lt xs) ≡ length xs
  unfolding sort_by
  length-sort_by lt [] = refl
  length-sort_by lt (x ∷ xs) =
      omega (arith, length-insert_by lt x (sort_by lt xs), length-sort_by lt xs)

  insert_cons :
      (lt : A → A → Bool) (x y : A) (ys : List A) (a : A)
      → (Elem a (insert_by lt x ys) → Elem a (x ∷ ys))
      → Elem a (y ∷ insert_by lt x ys)
      → Elem a (x ∷ y ∷ ys)
  insert_cons lt x y ys a ih (inl e) = inr (inl e)
  insert_cons lt x y ys a ih (inr m) = skip (ih m)
    where
      skip : Elem a (x ∷ ys) → Elem a (x ∷ y ∷ ys)
      skip (inl e) = inl e
      skip (inr m) = inr (inr m)

  Elem-insert_by :
      (lt : A → A → Bool) (x : A) (ys : List A) (a : A)
      → Elem a (insert_by lt x ys)
      → Elem a (x ∷ ys)
  unfolding insert_by
  Elem-insert_by lt x [] a m = m
  Elem-insert_by lt x (y ∷ ys) a m = elim (Bool-cases (lt y x)) [
    | inl t ↦ insert_cons lt x y ys a (Elem-insert_by lt x ys a) (rw t at m)
    | inr f ↦ rw f at m
  ]

  -- A sorted list has the elements of the list.
  pub Elem-sort_by : (lt : A → A → Bool) (xs : List A) (a : A) → Elem a (sort_by lt xs) → Elem a xs
  unfolding sort_by
  Elem-sort_by lt [] a m = m
  Elem-sort_by lt (x ∷ xs) a m = go (Elem-insert_by lt x (sort_by lt xs) a m) (Elem-sort_by lt xs a)
    where
      go : Elem a (x ∷ sort_by lt xs) → (Elem a (sort_by lt xs) → Elem a xs) → Elem a (x ∷ xs)
      go (inl e) ih = inl e
      go (inr m) ih = inr (ih m)

  insert_by-Elem :
      (lt : A → A → Bool) (x : A) (ys : List A) (a : A)
      → Elem a (x ∷ ys)
      → Elem a (insert_by lt x ys)
  unfolding insert_by
  insert_by-Elem lt x [] a m = m
  insert_by-Elem lt x (y ∷ ys) a m = elim (Bool-cases (lt y x)) [
    | inl t ↦ rw t (go m (insert_by-Elem lt x ys a))
    | inr f ↦ rw f m
  ]
    where
      go :
          Elem a (x ∷ y ∷ ys)
          → (Elem a (x ∷ ys) → Elem a (insert_by lt x ys))
          → Elem a (y ∷ insert_by lt x ys)
      go (inl e) ih = inr (ih (inl e))
      go (inr (inl e)) ih = inl e
      go (inr (inr n)) ih = inr (ih (inr n))

  pub sort_by-Elem : (lt : A → A → Bool) (xs : List A) (a : A) → Elem a xs → Elem a (sort_by lt xs)
  unfolding sort_by
  sort_by-Elem lt [] a m = m
  sort_by-Elem lt (x ∷ xs) a (inl e) = insert_by-Elem lt x (sort_by lt xs) a (inl e)
  sort_by-Elem lt (x ∷ xs) a (inr m) =
      insert_by-Elem lt x (sort_by lt xs) a (inr (sort_by-Elem lt xs a m))

  -- No row stands behind one that it precedes.
  abbrev pub IsSorted : (A → A → Bool) → List A → Type 0
  IsSorted lt [] = Unit
  IsSorted lt (x ∷ xs) = All (λ y. lt y x ≡ false) xs × IsSorted lt xs

-- A strict order whose negation is transitive.
pub record IsStrict {A : Type 0} (lt : A → A → Bool) : Type 0 where
  pub asym : (x y : A) → lt x y ≡ true → lt y x ≡ false
  pub cotrans : (x y z : A) → lt y x ≡ false → lt z y ≡ false → lt z x ≡ false

module _ {A : Type 0} (lt : A → A → Bool) (strict : IsStrict lt) where
  All-follow :
      (x y : A) (ys : List A)
      → lt y x ≡ false
      → All (λ z. lt z y ≡ false) ys
      → All (λ z. lt z x ≡ false) ys
  All-follow x y [] h all = tt
  All-follow x y (z ∷ zs) h all = (strict.cotrans x y z h all.0, All-follow x y zs h all.1)

  All-insert_by :
      (w x : A) (ys : List A)
      → lt x w ≡ false
      → All (λ z. lt z w ≡ false) ys
      → All (λ z. lt z w ≡ false) (insert_by lt x ys)
  unfolding insert_by
  All-insert_by w x [] h all = (h, tt)
  All-insert_by w x (y ∷ ys) h all = elim (Bool-cases (lt y x)) [
    | inl t ↦ rw t (all.0, All-insert_by w x ys h all.1)
    | inr f ↦ rw f (h, all)
  ]

  insert_by-IsSorted : (x : A) (ys : List A) → IsSorted lt ys → IsSorted lt (insert_by lt x ys)
  unfolding insert_by
  insert_by-IsSorted x [] s = (tt, tt)
  insert_by-IsSorted x (y ∷ ys) s = elim (Bool-cases (lt y x)) [
    | inl t ↦ rw t (All-insert_by y x ys (strict.asym y x t) s.0, insert_by-IsSorted x ys s.1)
    | inr f ↦ rw f ((f, All-follow x y ys f s.0), s)
  ]

  pub sort_by-IsSorted : (xs : List A) → IsSorted lt (sort_by lt xs)
  unfolding sort_by
  sort_by-IsSorted [] = tt
  sort_by-IsSorted (x ∷ xs) = insert_by-IsSorted x (sort_by lt xs) (sort_by-IsSorted xs)

  All-Elem : (P : A → Type 0) (xs : List A) (a : A) → All P xs → Elem a xs → P a
  All-Elem P [] a h m = absurd m
  All-Elem P (x ∷ xs) a h (inl e) = rw e h.0
  All-Elem P (x ∷ xs) a h (inr m) = All-Elem P xs a h.1 m

  Elem-drop : (n : ℕ) (xs : List A) (a : A) → Elem a (drop n xs) → Elem a xs
  Elem-drop zero xs a m = m
  Elem-drop (suc n) [] a m = m
  Elem-drop (suc n) (x ∷ xs) a m = inr (Elem-drop n xs a m)

  -- The first rows of a sorted list precede or equal the rest.
  pub take-drop_le :
      (n : ℕ) (xs : List A) (a b : A)
      → IsSorted lt xs
      → Elem a (take n xs)
      → Elem b (drop n xs)
      → lt b a ≡ false
  take-drop_le zero xs a b s m k = absurd m
  take-drop_le (suc n) [] a b s m k = absurd m
  take-drop_le (suc n) (x ∷ xs) a b s (inl e) k =
      rw e (All-Elem (λ z. lt z x ≡ false) xs b s.0 (Elem-drop n xs b k))
  take-drop_le (suc n) (x ∷ xs) a b s (inr m) k = take-drop_le n xs a b s.1 m k

-- Every row of a list is among the first or among the rest.
pub take-or-drop :
    {A : Type 0} (n : ℕ) (xs : List A) (a : A) → Elem a xs → Elem a (take n xs) ⊎ Elem a (drop n xs)
take-or-drop zero xs a m = inr m
take-or-drop (suc n) [] a m = inr m
take-or-drop (suc n) (x ∷ xs) a (inl e) = inl (inl e)
take-or-drop (suc n) (x ∷ xs) a (inr m) = go (take-or-drop n xs a m)
  where
    go : Elem a (take n xs) ⊎ Elem a (drop n xs) → Elem a (x ∷ take n xs) ⊎ Elem a (drop n xs)
    go (inl k) = inl (inr k)
    go (inr k) = inr k
