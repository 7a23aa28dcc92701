-- ===== src/ModelTasks/Paths.antt =====
-- `validate_repository_id` and `build_target_path`. A pure path of `pathlib` is its anchor and its
-- parts; a root with a backslash is parsed by `PureWindowsPath`, which is the parameter
-- `parse_windows`, and its parts are joined by backslashes.
pub mod Inside
pub mod RoundTrip
use ai_infra_console.Prelude.{
  ℕ, Text, text, text_eq, Bool, true, false, ◌&&◌, ◌||◌, not, List, [], ◌∷◌, ◌++◌, map, ltb, leb,
  ◌==◌, Result, ok, err, guard, ◌>>=◌, ◌>>◌, length, exists, if◌then◌else◌,
}
use ai_infra_console.Strings.{strip, split, join, starts_with}
use ai_infra_console.ModelTasks.Errors.{TaskError, invalid_source_id, invalid_target_path}

-- `Literal["huggingface", "modelscope"]`
pub data ModelProvider : Type 0 where
  huggingface modelscope : ModelProvider

unfoldable pub provider_text : ModelProvider → Text
unfolding text
provider_text huggingface = text "huggingface"
provider_text modelscope = text "modelscope"

unfoldable pub is_alphanumeric : ℕ → Bool
is_alphanumeric c =
    (leb b'A' c && leb c b'Z') || (leb b'a' c && leb c b'z') || (leb b'0' c && leb c b'9')

-- `[A-Za-z0-9._-]`
unfoldable pub is_part_character : ℕ → Bool
unfolding is_alphanumeric
is_part_character c = is_alphanumeric c || c == b'.' || c == b'_' || c == b'-'

unfoldable pub every : (ℕ → Bool) → Text → Bool
every test [] = true
every test (c ∷ s) = test c && every test s

-- `REPOSITORY_PART.fullmatch(part) is not None`
unfoldable pub is_repository_part : Text → Bool
unfolding is_part_character every
is_repository_part [] = false
is_repository_part (c ∷ s) = is_alphanumeric c && every is_part_character s && ltb (length s) 128

-- `part in {".", ".."}`
unfoldable pub is_dots : Text → Bool
unfolding text text_eq
is_dots part = text_eq part (text ".") || text_eq part (text "..")

unfoldable pub repository_parts : List Text → Result TaskError (Text × Text)
repository_parts (owner ∷ repository ∷ []) = do
  guard (not (is_dots owner || is_dots repository)) invalid_source_id
  guard (is_repository_part owner && is_repository_part repository) invalid_source_id
  ok (owner, repository)
repository_parts _ = err invalid_source_id

unfoldable pub validate_repository_id : Text → Result TaskError (Text × Text)
unfolding repository_parts
validate_repository_id source_id = repository_parts (split b'/' (strip source_id))

pub record PurePath : Type 0 where
  pub separator : Text
  pub anchor : Text
  pub parts : List Text

-- The parts of a path that are kept: not the empty ones and not `.`.
unfoldable pub kept_parts : List Text → List Text
unfolding text text_eq
kept_parts [] = []
kept_parts (part ∷ parts) =
    let rest = kept_parts parts in
    if text_eq part [] || text_eq part (text ".") then rest else part ∷ rest

posix_anchor : Text → Text
unfolding text starts_with
posix_anchor s =
    if starts_with (text "//") s && not (starts_with (text "///") s)
    then text "//"
    else if starts_with (text "/") s
    then text "/"
    else []

unfoldable pub parse_posix : Text → PurePath
unfolding text posix_anchor split kept_parts
parse_posix s = record {
  separator = text "/";
  anchor = posix_anchor s;
  parts = kept_parts (split b'/' s);
}

-- `base / segment` for a segment that has no separator, no drive and no anchor.
unfoldable pub child : PurePath → Text → PurePath
unfolding kept_parts
child base segment = record base { parts = base.parts ++ kept_parts (segment ∷ []) }

-- `str(path)`
unfoldable pub show_path : PurePath → Text
unfolding text join
show_path path =
    if text_eq path.anchor [] && leb (length path.parts) 0
    then text "."
    else path.anchor ++ join path.separator path.parts

unfoldable pub same_parts : List Text → List Text → Bool
unfolding text_eq
same_parts [] [] = true
same_parts (p ∷ ps) (q ∷ qs) = text_eq p q && same_parts ps qs
same_parts _ _ = false

unfoldable pub is_prefix : List Text → List Text → Bool
unfolding text_eq
is_prefix [] qs = true
is_prefix (p ∷ ps) [] = false
is_prefix (p ∷ ps) (q ∷ qs) = text_eq p q && is_prefix ps qs

-- `target == base`, `target.is_relative_to(base)`
unfoldable pub same_path : PurePath → PurePath → Bool
unfolding same_parts
same_path p q = text_eq p.anchor q.anchor && same_parts p.parts q.parts

unfoldable pub is_relative_to : PurePath → PurePath → Bool
unfolding is_prefix
is_relative_to target base = text_eq target.anchor base.anchor && is_prefix base.parts target.parts

module _ (parse_windows : Text → PurePath) where
  -- `path_type(root)`
  unfoldable pub base_path : Text → PurePath
  base_path root = if exists (λ c. c == b'\\') root then parse_windows root else parse_posix root

  unfoldable pub target_of : Text → ModelProvider → Text → Text → PurePath
  unfolding base_path child
  target_of root provider owner repository =
      child (child (child (base_path root) (provider_text provider)) owner) repository

  unfoldable pub build_target_path : Text → ModelProvider → Text → Result TaskError Text
  unfolding target_of
  build_target_path root provider source_id = do
    parts ← validate_repository_id source_id
    guard
        (not (same_path (target_of root provider parts.0 parts.1) (base_path root))
          && is_relative_to (target_of root provider parts.0 parts.1) (base_path root))
        invalid_target_path
    ok (show_path (target_of root provider parts.0 parts.1))
