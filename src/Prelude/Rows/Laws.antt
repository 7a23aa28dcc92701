-- ===== src/Prelude/Rows/Laws.antt =====
-- What the queries and updates return.
use Prim.Native.Nat.{ℕ, ◌+◌, ◌≤◌}
use mathlib.Core.Path.{◌≡◌, refl}
use mathlib.Core.Logic.{inl, inr}
use mathlib.Core.Bool.{Bool, true, false}
use mathlib.Core.Option.{Option, none, some}
use mathlib.Core.List.{List, [], ◌∷◌, ◌++◌}
use native.Mathlib.Omega.{arith}
use ai_infra_console.Prelude.Tests.{◌==◌, if◌then◌else◌, to_ℕ, Bool-cases, Option-cases}
use ai_infra_console.Prelude.Lists.{Elem}
use ai_infra_console.Prelude.Rows.Defs.{
  first, select, exists, count_by, least, min_by, find, put, UniqueIds,
}

module _ {A : Type 0} where
  pub first-eq_some :
      (test : A → Bool) (xs : List A) (a : A) → first test xs ≡ some a → (test a ≡ true) × Elem a xs
  unfolding first
  first-eq_some test [] a h = cc
  first-eq_some test (x ∷ xs) a h = ground (arith, first-eq_some test xs a)

  pub first-eq_none :
      (test : A → Bool) (xs : List A) (a : A) → first test xs ≡ none → Elem a xs → test a ≡ false
  unfolding first
  first-eq_none test (x ∷ xs) a h (inl e) = ground arith
  first-eq_none test (x ∷ xs) a h (inr m) = ground (arith, first-eq_none test xs a)
  first-eq_none test [] a h m = absurd m

  cons-cases :
      (test : A → Bool) (x : A) (xs : List A) (a : A)
      → test x ≡ true
      → (Elem a (select test xs) → (test a ≡ true) × Elem a xs)
      → Elem a (x ∷ select test xs)
      → (test a ≡ true) × Elem a (x ∷ xs)
  cons-cases test x xs a t ih (inl e) = (rw e t, inl e)
  cons-cases test x xs a t ih (inr m) = let (p, n) = ih m in (p, inr n)

  pub Elem-select :
      (test : A → Bool) (xs : List A) (a : A)
      → Elem a (select test xs)
      → (test a ≡ true) × Elem a xs
  unfolding select
  Elem-select test [] a h = absurd h
  Elem-select test (x ∷ xs) a h = elim (Bool-cases (test x)) [
    | inl t ↦ cons-cases test x xs a t (Elem-select test xs a) (rw t at h)
    | inr f ↦ let (p, m) = Elem-select test xs a (rw f at h) in (p, inr m)
  ]

  pub exists-eq_false :
      (test : A → Bool) (xs : List A) → exists test xs ≡ false → count_by test xs ≡ 0
  unfolding exists count_by
  exists-eq_false test [] h = refl
  exists-eq_false test (x ∷ xs) h = ground (arith, exists-eq_false test xs)

  pub exists-eq_true :
      (test : A → Bool) (xs : List A) → exists test xs ≡ true → 1 ≤ count_by test xs
  unfolding exists count_by
  exists-eq_true test [] h = cc
  exists-eq_true test (x ∷ xs) h = ground (arith, exists-eq_true test xs)

  pub find-eq_some :
      (id : A → ℕ) (k : ℕ) (xs : List A) (a : A) → find id k xs ≡ some a → (id a ≡ k) × Elem a xs
  unfolding find
  find-eq_some id k [] a h = cc
  find-eq_some id k (x ∷ xs) a h = ground (arith, find-eq_some id k xs a)

  find-ne_none : (id : A → ℕ) (xs : List A) (a : A) → Elem a xs → find id (id a) xs ≡ none → ⊥
  unfolding find
  find-ne_none id [] a m h = m
  find-ne_none id (x ∷ xs) a (inl e) h = ground arith
  find-ne_none id (x ∷ xs) a (inr m) h = ground (arith, find-ne_none id xs a m)

  -- With unique keys a row of the table is the one that its key finds.
  pub find_self :
      (id : A → ℕ) (xs : List A) (a : A) → UniqueIds id xs → Elem a xs → find id (id a) xs ≡ some a
  unfolding find
  find_self id [] a u m = absurd m
  find_self id (x ∷ xs) a u (inl e) = ground arith
  find_self id (x ∷ xs) a u (inr m) =
      ground (arith, find_self id xs a u.1 m, find-ne_none id xs a m)

  pub least_le : (key : A → ℕ) (x : A) (o : Option A) → key (least key x o) ≤ key x
  unfolding least
  least_le key x o = ground arith

  pub Elem-min_by : (key : A → ℕ) (xs : List A) (a : A) → min_by key xs ≡ some a → Elem a xs
  unfolding min_by
  Elem-min_by key [] a h = cc
  Elem-min_by key (x ∷ xs) a h = ground (arith, Elem-min_by key xs a)

  pub find-put :
      (id : A → ℕ) (row old : A) (k : ℕ) (xs : List A)
      → find id (id row) xs ≡ some old
      → find id k (put id row xs) ≡ (if id row == k then some row else find id k xs)
  unfolding find put
  find-put id row old k [] h = cc
  find-put id row old k (x ∷ xs) h = ground (arith, find-put id row old k xs)

  -- One row changes, so a count changes by what that row counts before and after.
  pub count_by-put :
      (id : A → ℕ) (test : A → Bool) (row old : A) (xs : List A)
      → find id (id row) xs ≡ some old
      → count_by test (put id row xs) + to_ℕ (test old) ≡ count_by test xs + to_ℕ (test row)
  unfolding find put count_by
  count_by-put id test row old [] h = cc
  count_by-put id test row old (x ∷ xs) h = elim (Bool-cases (id x == id row)) [
    | inl e ↦ ground arith
    | inr e ↦ rw e (ground (arith, count_by-put id test row old xs (rw e at h)))
  ]

  pub count_by-append :
      (test : A → Bool) (row : A) (xs : List A)
      → count_by test (xs ++ row ∷ []) ≡ count_by test xs + to_ℕ (test row)
  unfolding count_by
  count_by-append test row [] = omega arith
  count_by-append test row (x ∷ xs) = omega (arith, count_by-append test row xs)

  pub find-append :
      (id : A → ℕ) (row : A) (k : ℕ) (xs : List A)
      → find id k xs ≡ none
      → find id k (xs ++ row ∷ []) ≡ (if id row == k then some row else none)
  unfolding find
  find-append id row k [] h = refl
  find-append id row k (x ∷ xs) h = ground (arith, find-append id row k xs)

  find-none-put :
      (id : A → ℕ) (row : A) (k : ℕ) (xs : List A)
      → find id k xs ≡ none
      → find id k (put id row xs) ≡ none
  unfolding find put
  find-none-put id row k [] h = refl
  find-none-put id row k (x ∷ xs) h = ground (arith, find-none-put id row k xs)

  pub put-UniqueIds :
      (id : A → ℕ) (row : A) (xs : List A) → UniqueIds id xs → UniqueIds id (put id row xs)
  unfolding put
  put-UniqueIds id row [] u = u
  put-UniqueIds id row (x ∷ xs) u = elim (Bool-cases (id x == id row)) [
    | inl e ↦ rw e (let e' : id x ≡ id row = ground arith in (rw e' at u.0, u.1))
    | inr e ↦ rw e (find-none-put id row (id x) xs u.0, put-UniqueIds id row xs u.1)
  ]

  pub append-UniqueIds :
      (id : A → ℕ) (row : A) (xs : List A)
      → find id (id row) xs ≡ none
      → UniqueIds id xs
      → UniqueIds id (xs ++ row ∷ [])
  unfolding find
  append-UniqueIds id row [] h u = (refl, tt)
  append-UniqueIds id row (x ∷ xs) h u = (
    ground (arith, find-append id row (id x) xs u.0),
    append-UniqueIds id row xs (ground arith) u.1,
  )

  pub select-Elem :
      (test : A → Bool) (xs : List A) (a : A) → Elem a xs → test a ≡ true → Elem a (select test xs)
  unfolding select
  select-Elem test [] a m t = m
  select-Elem test (x ∷ xs) a (inl e) t = let t' : test x ≡ true = ground arith in rw t' (inl e)
  select-Elem test (x ∷ xs) a (inr m) t = elim (Bool-cases (test x)) [
    | inl t' ↦ rw t' (inr (select-Elem test xs a m t))
    | inr f ↦ rw f (select-Elem test xs a m t)
  ]

  pub min_by-ne_none : (key : A → ℕ) (xs : List A) (b : A) → min_by key xs ≡ none → Elem b xs → ⊥
  unfolding min_by
  min_by-ne_none key [] b h m = m
  min_by-ne_none key (x ∷ xs) b h m = cc

  -- The row of ORDER BY key LIMIT 1 is a least one.
  pub min_by-le :
      (key : A → ℕ) (xs : List A) (a b : A) → min_by key xs ≡ some a → Elem b xs → key a ≤ key b
  unfolding min_by least
  min_by-le key [] a b h m = absurd m
  min_by-le key (x ∷ xs) a b h (inl e) = ground arith
  min_by-le key (x ∷ xs) a b h (inr m) = elim (Option-cases (min_by key xs)) [
    | inl e ↦ absurd (min_by-ne_none key xs b e m)
    | inr (y, e) ↦ ground (arith, min_by-le key xs y b e m)
  ]
