-- ===== src/Strings/Laws.antt =====
-- What a sanitised text looks like.
use ai_infra_console.Prelude.{
  ℕ, zero, suc, ◌+◌, ◌≤◌, Text, ◌≡◌, refl, Bool, true, false, Option, none, some, [], ◌∷◌, arith,
  take, length, length-take, All, Bool-cases, inl, inr,
}
use mathlib.Core.List.{reverse, reverse_aux}
use ai_infra_console.Strings.{is_space, lstrip, strip, is_control, sub_controls, or_none, safe_text}

abbrev pub IsPrintable : Text → Type 0
IsPrintable = All (λ c. is_control c ≡ false)

sub_controls-IsPrintable : (inside : Bool) (s : Text) → IsPrintable (sub_controls inside s)
unfolding sub_controls
sub_controls-IsPrintable inside [] = tt
sub_controls-IsPrintable inside (c ∷ s) = elim (Bool-cases (is_control c)) [
  | inl t ↦ replaced inside c s t (sub_controls-IsPrintable (is_control c) s)
  | inr f ↦ rw f (f, rw f at (sub_controls-IsPrintable (is_control c) s))
]
  where
    replaced :
        (inside : Bool) (c : ℕ) (s : Text)
        → is_control c ≡ true
        → IsPrintable (sub_controls (is_control c) s)
        → IsPrintable (sub_controls inside (c ∷ s))
    replaced true c s t h = rw t (rw t at h)
    replaced false c s t h = rw t (refl, rw t at h)

module _ (P : ℕ → Type 0) where
  All-reverse_aux : (xs ys : Text) → All P xs → All P ys → All P (reverse_aux xs ys)
  All-reverse_aux [] ys h k = k
  All-reverse_aux (x ∷ xs) ys h k = All-reverse_aux xs (x ∷ ys) h.1 (h.0, k)

  All-take : (n : ℕ) (xs : Text) → All P xs → All P (take n xs)
  All-take zero xs h = tt
  All-take (suc n) [] h = tt
  All-take (suc n) (x ∷ xs) h = (h.0, All-take n xs h.1)

  All-lstrip : (s : Text) → All P s → All P (lstrip s)
  unfolding lstrip
  All-lstrip [] h = h
  All-lstrip (c ∷ s) h = elim (Bool-cases (is_space c)) [
    | inl t ↦ rw t (All-lstrip s h.1)
    | inr f ↦ rw f h
  ]

  All-strip : (s : Text) → All P s → All P (strip s)
  unfolding strip
  All-strip s h =
      All-reverse_aux (lstrip (reverse (lstrip s))) []
        (All-lstrip (reverse (lstrip s)) (All-reverse_aux (lstrip s) [] (All-lstrip s h) tt)) tt

length-sub_controls : (inside : Bool) (s : Text) → length (sub_controls inside s) ≤ length s
unfolding sub_controls
length-sub_controls inside [] = omega arith
length-sub_controls inside (c ∷ s) = ground (arith, length-sub_controls (is_control c) s)

length-reverse_aux : (xs ys : Text) → length (reverse_aux xs ys) ≡ length xs + length ys
length-reverse_aux [] ys = omega arith
length-reverse_aux (x ∷ xs) ys = omega (arith, length-reverse_aux xs (x ∷ ys))

length-lstrip : (s : Text) → length (lstrip s) ≤ length s
unfolding lstrip
length-lstrip [] = omega arith
length-lstrip (c ∷ s) = ground (arith, length-lstrip s)

length-strip : (s : Text) → length (strip s) ≤ length s
unfolding strip
length-strip s = omega (
  arith,
  length-lstrip s,
  length-reverse_aux (lstrip s) [],
  length-lstrip (reverse (lstrip s)),
  length-reverse_aux (lstrip (reverse (lstrip s))) [],
)

-- A text that a sanitiser lets through: at most `n` characters, not empty, and none of them a
-- control character.
abbrev pub IsClean : ℕ → Text → Type 0
IsClean n t = IsPrintable t × (1 ≤ length t) × (length t ≤ n)

-- A nullable text that is clean.
abbrev pub AllClean : ℕ → Option Text → Type 0
AllClean n none = Unit
AllClean n (some t) = IsClean n t

-- A nullable text within `max_length=n`.
abbrev pub IsWithin : ℕ → Option Text → Type 0
IsWithin n none = Unit
IsWithin n (some t) = length t ≤ n

or_none-AllClean : (n : ℕ) (s : Text) → IsPrintable s → length s ≤ n → AllClean n (or_none s)
unfolding or_none
or_none-AllClean n [] p h = tt
or_none-AllClean n (c ∷ s) p h = (p, omega arith, h)

-- What is written is clean and within any bound of what was given.
pub safe_text-AllClean :
    (limit n : ℕ) (value : Option Text) → IsWithin n value → AllClean n (safe_text limit value)
unfolding safe_text
safe_text-AllClean limit n none h = tt
safe_text-AllClean limit n (some []) h = tt
safe_text-AllClean limit n (some (c ∷ s)) h =
    let replaced = sub_controls false (c ∷ s) in
    or_none-AllClean n (take limit (strip replaced))
      (All-take (λ d. is_control d ≡ false) limit (strip replaced)
        (All-strip (λ d. is_control d ≡ false) replaced (sub_controls-IsPrintable false (c ∷ s))))
      (omega (
        arith,
        h,
        length-take limit (strip replaced),
        length-strip replaced,
        length-sub_controls false (c ∷ s),
      ))
