-- ===== src/Prelude/Rows/Defs.antt =====
-- Tables as lists of rows: the queries and updates that the services make of them.
use Prim.Native.Nat.{ℕ, ◌+◌}
use mathlib.Core.Path.{◌≡◌}
use mathlib.Core.Bool.{Bool, true, false}
use mathlib.Core.Option.{Option, none, some}
use mathlib.Core.List.{List, [], ◌∷◌}
use ai_infra_console.Prelude.Tests.{leb, ◌==◌, if◌then◌else◌, to_ℕ}

module _ {A : Type 0} where
  -- SELECT ... WHERE test LIMIT 1
  unfoldable pub first : (A → Bool) → List A → Option A
  first test [] = none
  first test (x ∷ xs) = if test x then some x else first test xs

  -- SELECT ... WHERE test
  unfoldable pub select : (A → Bool) → List A → List A
  select test [] = []
  select test (x ∷ xs) = let rest = select test xs in if test x then x ∷ rest else rest

  -- EXISTS (SELECT ... WHERE test)
  unfoldable pub exists : (A → Bool) → List A → Bool
  exists test [] = false
  exists test (x ∷ xs) = if test x then true else exists test xs

  unfoldable pub count_by : (A → Bool) → List A → ℕ
  count_by test [] = 0
  count_by test (x ∷ xs) = to_ℕ (test x) + count_by test xs

  -- The least row of two under an order key; the earlier one of equals.
  unfoldable pub least : (A → ℕ) → A → Option A → A
  least key x none = x
  least key x (some y) = if leb (key x) (key y) then x else y

  -- ORDER BY key LIMIT 1
  unfoldable pub min_by : (A → ℕ) → List A → Option A
  unfolding least
  min_by key [] = none
  min_by key (x ∷ xs) = some (least key x (min_by key xs))

  -- The row with this primary key.
  unfoldable pub find : (A → ℕ) → ℕ → List A → Option A
  find id k [] = none
  find id k (x ∷ xs) = if id x == k then some x else find id k xs

  -- The row with `row`'s primary key, written back.
  unfoldable pub put : (A → ℕ) → A → List A → List A
  put id row [] = []
  put id row (x ∷ xs) = let rest = put id row xs in if id x == id row then row ∷ xs else x ∷ rest

  abbrev pub UniqueIds : (A → ℕ) → List A → Type 0
  UniqueIds id [] = Unit
  UniqueIds id (x ∷ xs) = (find id (id x) xs ≡ none) × UniqueIds id xs
