-- ===== src/ModelTasks/Paths/Inside.antt =====
-- A download is stored strictly below the directory that was chosen for it.
use ai_infra_console.Prelude.{
  ℕ, Text, text_eq_refl, ◌≡◌, refl, ◌≢◌, ◌⊎◌, inl, inr, Result, err, not, true, false, ◌&&◌, List,
  [], ◌∷◌, ◌++◌, arith, ◌==◌, ok, All, and-eq_true,
}
use mathlib.Core.List.{append_assoc}
use ai_infra_console.Strings.{strip, split}
use ai_infra_console.ModelTasks.Errors.{TaskError, invalid_source_id}
use ai_infra_console.ModelTasks.Paths.{
  ModelProvider, huggingface, modelscope, provider_text, is_alphanumeric, is_part_character, every,
  is_repository_part, is_dots, repository_parts, validate_repository_id, PurePath, kept_parts,
  child, show_path, same_parts, is_prefix, same_path, is_relative_to, base_path, target_of,
  build_target_path,
}

-- A plain name: it cannot leave the directory that it is put in.
abbrev pub IsName : Text → Type 0
IsName part =
    (part ≢ [])
    × (is_dots part ≡ false)
    × All (λ c. (c == b'/' ≡ false) × (c == b'\\' ≡ false) × (c == b':' ≡ false)) part

part_character-IsSafe :
    (c : ℕ)
    → is_part_character c ≡ true
    → (c == b'/' ≡ false) × (c == b'\\' ≡ false) × (c == b':' ≡ false)
unfolding is_part_character is_alphanumeric
part_character-IsSafe c h = ground arith

pub alphanumeric-IsPart : (c : ℕ) → is_alphanumeric c ≡ true → is_part_character c ≡ true
unfolding is_part_character
alphanumeric-IsPart c h = ground arith

pub every-All :
    (s : Text)
    → every is_part_character s ≡ true
    → All (λ c. (c == b'/' ≡ false) × (c == b'\\' ≡ false) × (c == b':' ≡ false)) s
unfolding every
every-All [] h = tt
every-All (c ∷ s) h =
    let (p, q) = and-eq_true (is_part_character c) (every is_part_character s) h in
    (part_character-IsSafe c p, every-All s q)

repository_part-IsName :
    (part : Text) → is_repository_part part ≡ true → is_dots part ≡ false → IsName part
unfolding is_repository_part
repository_part-IsName [] h d = cc
repository_part-IsName (c ∷ s) h d = (
  λ e. cc,
  d,
  (part_character-IsSafe c (alphanumeric-IsPart c (ground arith)), every-All s (ground arith)),
)

-- A source id that passes is the owner's name and the repository's.
pub validate-IsName :
    (source_id : Text) (owner repository : Text)
    → validate_repository_id source_id ≡ ok (owner, repository)
    → IsName owner × IsName repository
unfolding validate_repository_id
validate-IsName source_id owner repository h = go (split b'/' (strip source_id)) h
  where
    go :
        (parts : List Text)
        → repository_parts parts ≡ ok (owner, repository)
        → IsName owner × IsName repository
    go (a ∷ b ∷ []) h = (
      repository_part-IsName owner (ground arith) (ground arith),
      repository_part-IsName repository (ground arith) (ground arith),
    )
    go (a ∷ b ∷ c ∷ r) h = cc
    go (a ∷ []) h = cc
    go [] h = cc

validate_error :
    (source_id : Text) (e : TaskError)
    → validate_repository_id source_id ≡ err e
    → e ≡ invalid_source_id
unfolding validate_repository_id
validate_error source_id e h = go (split b'/' (strip source_id)) h
  where
    go : (parts : List Text) → repository_parts parts ≡ err e → e ≡ invalid_source_id
    go (a ∷ b ∷ []) h = ground arith
    go (a ∷ b ∷ c ∷ r) h = cc
    go (a ∷ []) h = cc
    go [] h = cc

pub kept_parts-IsName : (part : Text) → IsName part → kept_parts (part ∷ []) ≡ part ∷ []
unfolding kept_parts is_dots
kept_parts-IsName [] n = absurd (n.0 refl)
kept_parts-IsName (c ∷ s) n = ground arith

pub kept_parts-provider :
    (provider : ModelProvider)
    → kept_parts (provider_text provider ∷ []) ≡ provider_text provider ∷ []
unfolding kept_parts provider_text
kept_parts-provider huggingface = refl
kept_parts-provider modelscope = refl

pub same_parts-append :
    (ps : List Text) (q : Text) (qs : List Text) → same_parts (ps ++ q ∷ qs) ps ≡ false
unfolding same_parts
same_parts-append [] q qs = refl
same_parts-append (p ∷ ps) q qs = ground (arith, same_parts-append ps q qs)

pub is_prefix-append : (ps qs : List Text) → is_prefix ps (ps ++ qs) ≡ true
unfolding is_prefix
is_prefix-append [] qs = refl
is_prefix-append (p ∷ ps) qs = rw (text_eq_refl p) (is_prefix-append ps qs)

module _ (parse_windows : Text → PurePath) where
  -- The directory of a download: the provider, the owner and the repository below the root.
  abbrev pub below : Text → ModelProvider → Text → Text → PurePath
  below root provider owner repository =
      let base = base_path parse_windows root in
      record base { parts = base.parts ++ provider_text provider ∷ owner ∷ repository ∷ [] }

  target_of-below :
      (root : Text) (provider : ModelProvider) (owner repository : Text)
      → IsName owner
      → IsName repository
      → target_of parse_windows root provider owner repository
        ≡ below root provider owner repository
  unfolding target_of child
  target_of-below root provider owner repository o r =
      simp (
        kept_parts-provider,
        kept_parts-IsName owner o,
        kept_parts-IsName repository r,
        append_assoc,
      )

  below-accepted :
      (root : Text) (provider : ModelProvider) (owner repository : Text)
      → not (same_path (below root provider owner repository) (base_path parse_windows root))
          && is_relative_to (below root provider owner repository) (base_path parse_windows root)
        ≡ true
  unfolding same_path is_relative_to
  below-accepted root provider owner repository =
      let base = base_path parse_windows root in
      rw (
        text_eq_refl base.anchor,
        same_parts-append base.parts (provider_text provider) (owner ∷ repository ∷ []),
        is_prefix-append base.parts (provider_text provider ∷ owner ∷ repository ∷ []),
      )

  pub build_target_path-ok :
      (root : Text) (provider : ModelProvider) (source_id owner repository : Text)
      → validate_repository_id source_id ≡ ok (owner, repository)
      → build_target_path parse_windows root provider source_id
        ≡ ok (show_path (below root provider owner repository))
  unfolding build_target_path
  build_target_path-ok root provider source_id owner repository v =
      let (o, r) = validate-IsName source_id owner repository v in
      rw (
        v,
        target_of-below root provider owner repository o r,
        below-accepted root provider owner repository,
      )

  build_target_path-err :
      (root : Text) (provider : ModelProvider) (source_id : Text) (e : TaskError)
      → validate_repository_id source_id ≡ err e
      → build_target_path parse_windows root provider source_id ≡ err invalid_source_id
  unfolding build_target_path
  build_target_path-err root provider source_id e v = rw (v, validate_error source_id e v)

  -- Whatever the root, an accepted source id names a directory strictly below it: the path is
  -- the root's, then the provider, then two plain names. A source id is refused for its form
  -- alone, so the second test of `build_target_path` never fails.
  pub build_target_path_lem :
      (root : Text) (provider : ModelProvider) (source_id : Text)
      → ((owner : Text) × (repository : Text) × (build_target_path parse_windows root provider
              source_id
            ≡ ok (show_path (below root provider owner repository)))
          × IsName owner
          × IsName repository)
        ⊎ (build_target_path parse_windows root provider source_id ≡ err invalid_source_id)
  build_target_path_lem root provider source_id = go (validate_repository_id source_id) refl
    where
      go :
          (result : Result TaskError (Text × Text))
          → validate_repository_id source_id ≡ result
          → ((owner : Text) × (repository : Text) × (build_target_path parse_windows root provider
                  source_id
                ≡ ok (show_path (below root provider owner repository)))
              × IsName owner
              × IsName repository)
            ⊎ (build_target_path parse_windows root provider source_id ≡ err invalid_source_id)
      go (ok (owner, repository)) v =
          let (o, r) = validate-IsName source_id owner repository v in
          inl (
            owner,
            repository,
            build_target_path-ok root provider source_id owner repository v,
            o,
            r,
          )
      go (err e) v = inr (build_target_path-err root provider source_id e v)
