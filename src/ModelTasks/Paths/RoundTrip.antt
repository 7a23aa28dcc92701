-- ===== src/ModelTasks/Paths/RoundTrip.antt =====
-- A POSIX path is printed and parsed back: `str(Path(s))` names the path that `Path(s)` is.
use ai_infra_console.Prelude.{
  ℕ, Text, text, text_eq, ◌≡◌, refl, sym, ◌∙◌, ap, ◌⊎◌, inl, inr, Bool-cases, false, ◌||◌, List, [],
  ◌∷◌, ◌++◌, arith, ◌==◌, All,
}
use ai_infra_console.Strings.{split, cons_head, join, starts_with}
use ai_infra_console.ModelTasks.Paths.{PurePath, kept_parts, parse_posix, posix_anchor, show_path}

abbrev pub NoSlash : Text → Type 0
NoSlash part = All (λ c. c == b'/' ≡ false) part

-- A part that a parsed path keeps.
abbrev pub IsKept : Text → Type 0
IsKept part = ((text_eq part [] || text_eq part (text ".")) ≡ false) × NoSlash part

split-NoSlash_one : (p : Text) → NoSlash p → split b'/' p ≡ p ∷ []
unfolding split cons_head
split-NoSlash_one [] n = refl
split-NoSlash_one (c ∷ p) n = rw (n.0, split-NoSlash_one p n.1) refl

split-append : (p s : Text) → NoSlash p → split b'/' (p ++ b'/' ∷ s) ≡ p ∷ split b'/' s
unfolding split cons_head
split-append [] s n = refl
split-append (c ∷ p) s n = rw (n.0, split-append p s n.1) refl

join_one : (p : Text) → join (text "/") (p ∷ []) ≡ p
unfolding join
join_one p = refl

join_cons :
    (p q : Text) (qs : List Text)
    → join (text "/") (p ∷ q ∷ qs) ≡ p ++ b'/' ∷ join (text "/") (q ∷ qs)
unfolding join text
join_cons [] q qs = refl
join_cons (c ∷ p) q qs = ap (λ r. c ∷ r) (join_cons p q qs)

split-join :
    (p : Text) (ps : List Text)
    → All IsKept (p ∷ ps)
    → split b'/' (join (text "/") (p ∷ ps)) ≡ p ∷ ps
split-join p [] k = rw (join_one p) (split-NoSlash_one p k.0.1)
split-join p (q ∷ qs) k =
    rw (join_cons p q qs, split-append p (join (text "/") (q ∷ qs)) k.0.1, split-join q qs k.1) refl

kept_parts-kept : (ps : List Text) → All IsKept ps → kept_parts ps ≡ ps
unfolding kept_parts
kept_parts-kept [] k = refl
kept_parts-kept (p ∷ ps) k = rw (k.0.0, kept_parts-kept ps k.1) refl

kept_parts-none : kept_parts (split b'/' (join (text "/") [])) ≡ []
unfolding kept_parts split join text_eq text
kept_parts-none = refl

kept_parts-join :
    (ps : List Text) → All IsKept ps → kept_parts (split b'/' (join (text "/") ps)) ≡ ps
kept_parts-join [] k = kept_parts-none
kept_parts-join (p ∷ ps) k = rw (split-join p ps k) (kept_parts-kept (p ∷ ps) k)

cons_head-NoSlash :
    (c : ℕ) (ps : List Text) → c == b'/' ≡ false → All NoSlash ps → All NoSlash (cons_head c ps)
unfolding cons_head
cons_head-NoSlash c [] h k = ((h, tt), tt)
cons_head-NoSlash c (p ∷ ps) h k = ((h, k.0), k.1)

split-NoSlash : (s : Text) → All NoSlash (split b'/' s)
unfolding split
split-NoSlash [] = (tt, tt)
split-NoSlash (c ∷ s) = elim (Bool-cases (c == b'/')) [
  | inl t ↦ rw t (tt, split-NoSlash s)
  | inr f ↦ rw f (cons_head-NoSlash c (split b'/' s) f (split-NoSlash s))
]

kept_parts-IsKept : (ps : List Text) → All NoSlash ps → All IsKept (kept_parts ps)
unfolding kept_parts
kept_parts-IsKept [] n = tt
kept_parts-IsKept (p ∷ ps) n = elim (Bool-cases (text_eq p [] || text_eq p (text "."))) [
  | inl t ↦ rw t (kept_parts-IsKept ps n.1)
  | inr f ↦ rw f ((f, n.0), kept_parts-IsKept ps n.1)
]

-- What `Path(s)` of POSIX can be.
abbrev pub IsPosix : PurePath → Type 0
IsPosix path =
    (path.separator ≡ text "/")
    × ((path.anchor ≡ []) ⊎ ((path.anchor ≡ text "/") ⊎ (path.anchor ≡ text "//")))
    × All IsKept path.parts

posix_anchor-cases :
    (s : Text)
    → (posix_anchor s ≡ []) ⊎ ((posix_anchor s ≡ text "/") ⊎ (posix_anchor s ≡ text "//"))
unfolding posix_anchor
posix_anchor-cases s = ground arith

pub parse_posix-IsPosix : (s : Text) → IsPosix (parse_posix s)
unfolding parse_posix
parse_posix-IsPosix s =
    (refl, posix_anchor-cases s, kept_parts-IsKept (split b'/' s) (split-NoSlash s))

-- The parts after the anchor do not begin with a slash.
join-unrooted :
    (ps : List Text) → All IsKept ps → starts_with (text "/") (join (text "/") ps) ≡ false
unfolding join starts_with text text_eq
join-unrooted [] k = refl
join-unrooted ([] ∷ ps) k = cc
join-unrooted ((c ∷ p) ∷ []) k = ground (arith, k.0.1.0)
join-unrooted ((c ∷ p) ∷ q ∷ qs) k = ground (arith, k.0.1.0)

-- The anchor of the text of an anchor and parts.
posix_anchor-relative : (j : Text) → starts_with (text "/") j ≡ false → posix_anchor j ≡ []
unfolding posix_anchor starts_with text
posix_anchor-relative [] h = refl
posix_anchor-relative (c ∷ s) h = ground arith

posix_anchor-rooted :
    (j : Text) → starts_with (text "/") j ≡ false → posix_anchor (text "/" ++ j) ≡ text "/"
unfolding posix_anchor starts_with text
posix_anchor-rooted [] h = refl
posix_anchor-rooted (c ∷ s) h = ground arith

posix_anchor-double :
    (j : Text) → starts_with (text "/") j ≡ false → posix_anchor (text "//" ++ j) ≡ text "//"
unfolding posix_anchor starts_with text
posix_anchor-double [] h = refl
posix_anchor-double (c ∷ s) h = ground arith

-- The empty parts that an anchor leaves are dropped.
kept_parts-rooted : (j : Text) → kept_parts (split b'/' (text "/" ++ j)) ≡ kept_parts (split b'/' j)
unfolding kept_parts split text_eq text
kept_parts-rooted j = refl

kept_parts-double :
    (j : Text) → kept_parts (split b'/' (text "//" ++ j)) ≡ kept_parts (split b'/' j)
unfolding kept_parts split text_eq text
kept_parts-double j = refl

parse_posix-anchored :
    (path : PurePath) (shown : Text)
    → path.separator ≡ text "/"
    → posix_anchor shown ≡ path.anchor
    → kept_parts (split b'/' shown) ≡ path.parts
    → parse_posix shown ≡ path
unfolding parse_posix
parse_posix-anchored path shown s a k = rw (a, k, sym s) refl

-- Only the empty relative path is printed as a dot; any other as its anchor and its parts.
show_path-cases :
    (path : PurePath)
    → ((show_path path ≡ text ".") × (path.anchor ≡ []) × (path.parts ≡ []))
      ⊎ (show_path path ≡ path.anchor ++ join path.separator path.parts)
unfolding show_path text_eq
show_path-cases path = go path.separator path.anchor path.parts
  where
    go :
        (separator anchor : Text) (parts : List Text)
        → ((show_path (record { separator = separator; anchor = anchor; parts = parts }) ≡ text ".")
            × (anchor ≡ [])
            × (parts ≡ []))
          ⊎ (show_path (record { separator = separator; anchor = anchor; parts = parts })
              ≡ anchor ++ join separator parts)
    go separator [] [] = inl (refl, refl, refl)
    go separator [] (p ∷ ps) = inr (ground arith)
    go separator (c ∷ a) parts = inr refl

dot-parsed : (posix_anchor (text ".") ≡ []) × (kept_parts (split b'/' (text ".")) ≡ [])
unfolding posix_anchor kept_parts split text text_eq starts_with
dot-parsed = (refl, refl)

-- The text of a POSIX path is parsed back to the path.
pub parse_posix-show_path : (path : PurePath) → IsPosix path → parse_posix (show_path path) ≡ path
parse_posix-show_path path (s, anchor, kept) = elim (show_path-cases path) [
  | inl (e, a, ps) ↦
      ap parse_posix e
      ∙ parse_posix-anchored path (text ".") s (dot-parsed.0 ∙ sym a) (dot-parsed.1 ∙ sym ps)
  | inr e ↦ elim anchor [
    | inl a ↦
        shown e a ∙ parse_posix-anchored path j s (posix_anchor-relative j unrooted ∙ sym a) joined
    | inr (inl a) ↦
        shown e a
        ∙ parse_posix-anchored path (text "/" ++ j) s (posix_anchor-rooted j unrooted ∙ sym a)
            (kept_parts-rooted j ∙ joined)
    | inr (inr a) ↦
        shown e a
        ∙ parse_posix-anchored path (text "//" ++ j) s (posix_anchor-double j unrooted ∙ sym a)
            (kept_parts-double j ∙ joined)
  ]
]
  where
    j : Text
    j = join (text "/") path.parts

    unrooted : starts_with (text "/") j ≡ false
    unrooted = join-unrooted path.parts kept

    joined : kept_parts (split b'/' j) ≡ path.parts
    joined = kept_parts-join path.parts kept

    shown :
        {a : Text}
        → show_path path ≡ path.anchor ++ join path.separator path.parts
        → path.anchor ≡ a
        → parse_posix (show_path path) ≡ parse_posix (a ++ j)
    shown e a =
        ap parse_posix (e ∙ ap (λ r. path.anchor ++ join r path.parts) s ∙ ap (λ r. r ++ j) a)
