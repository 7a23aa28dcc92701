-- ===== src/Strings.antt =====
-- Python's `str` methods and regular expressions, as far as the services use them:
-- `strip`, `split`, slices, and the replacement of runs of control characters.
pub mod Laws
use ai_infra_console.Prelude.{
  ℕ, Text, Bool, true, false, ◌&&◌, ◌||◌, Option, none, some, List, [], ◌∷◌, ◌++◌, ltb, leb, ◌==◌,
  if◌then◌else◌, take,
}
use mathlib.Core.List.{reverse}

-- `str.isspace` of one character.
is_space : ℕ → Bool
is_space c =
    (leb 9 c && leb c 13)
    || (leb 28 c && leb c 32)
    || c == 133
    || c == 160
    || c == 5760
    || (leb 8192 c && leb c 8202)
    || c == 8232
    || c == 8233
    || c == 8239
    || c == 8287
    || c == 12288

pub lstrip : Text → Text
lstrip [] = []
lstrip (c ∷ s) = let rest = lstrip s in if is_space c then rest else c ∷ s

-- `value.strip()`
unfoldable pub strip : Text → Text
unfolding is_space lstrip
strip s = reverse (lstrip (reverse (lstrip s)))

-- `[\x00-\x1f\x7f]`
unfoldable pub is_control : ℕ → Bool
is_control c = ltb c 32 || c == 127

-- `re.sub(r"[\x00-\x1f\x7f]+", " ", value)`; `inside` tells that the last character was replaced.
unfoldable pub sub_controls : Bool → Text → Text
unfolding is_control
sub_controls inside [] = []
sub_controls inside (c ∷ s) =
    let rest = sub_controls (is_control c) s in
    if is_control c then (if inside then rest else 32 ∷ rest) else c ∷ rest

-- `text or None`
unfoldable pub or_none : Text → Option Text
or_none [] = none
or_none (c ∷ s) = some (c ∷ s)

-- `_safe_error` of model_tasks.py and `_safe_text` of deployments.py.
unfoldable pub safe_text : ℕ → Option Text → Option Text
unfolding strip sub_controls or_none
safe_text limit none = none
safe_text limit (some []) = none
safe_text limit (some (c ∷ s)) = or_none (take limit (strip (sub_controls false (c ∷ s))))

unfoldable pub cons_head : ℕ → List Text → List Text
cons_head c [] = (c ∷ []) ∷ []
cons_head c (part ∷ parts) = (c ∷ part) ∷ parts

-- `value.split(separator)`
unfoldable pub split : ℕ → Text → List Text
unfolding cons_head
split separator [] = [] ∷ []
split separator (c ∷ s) =
    let rest = split separator s in if c == separator then [] ∷ rest else cons_head c rest

unfoldable pub join : Text → List Text → Text
join separator [] = []
join separator (part ∷ []) = part
join separator (part ∷ parts) = part ++ separator ++ join separator parts

unfoldable pub starts_with : Text → Text → Bool
starts_with [] s = true
starts_with (c ∷ p) [] = false
starts_with (c ∷ p) (d ∷ s) = c == d && starts_with p s
