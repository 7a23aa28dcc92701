-- ===== src/Agent/Repository/Central.antt =====
-- The agent accepts the target that the central service computed.
use mathlib.Core.List.{append_assoc}
use ai_infra_console.Prelude.{
  Text, text_eq, text_eq_refl, ◌≡◌, refl, sym, ◌∙◌, ap, true, false, some, List, [], ◌∷◌, ◌++◌, ok,
  arith, >>=-eq-ok, exists, ◌==◌, All,
}
use ai_infra_console.Strings.{strip, split}
use ai_infra_console.ModelTasks.Paths
use ai_infra_console.ModelTasks.Paths.{
  ModelProvider, huggingface, modelscope, provider_text, is_dots, is_part_character,
  is_repository_part, is_alphanumeric, every, PurePath, parse_posix, child, same_path, same_parts,
  is_relative_to, show_path, validate_repository_id, build_target_path, base_path,
}
use ai_infra_console.ModelTasks.Paths.Inside.{
  IsName, every-All, alphanumeric-IsPart, validate-IsName, build_target_path-ok, same_parts-append,
  is_prefix-append,
}
use ai_infra_console.ModelTasks.Paths.RoundTrip.{
  IsPosix, IsKept, parse_posix-IsPosix, parse_posix-show_path,
}
use ai_infra_console.ModelTasks.Claims.{DownloadTaskCommand}
use ai_infra_console.Agent.Files.{FileSystem}
use ai_infra_console.Agent.Repository.{
  is_agent_part, two_parts, agent_repository_parts, agent_root, strict_target, check_parents,
  is_linked, expected_download_target,
}
use ai_infra_console.Agent.Repository.Confined.{place, children-place, drop-length_append, under}

repository_part-agent :
    (part : Text)
    → is_repository_part part ≡ true
    → is_dots part ≡ false
    → is_agent_part part ≡ true
unfolding is_repository_part every text_eq
repository_part-agent [] h d = cc
repository_part-agent (c ∷ s) h d = ground (arith, alphanumeric-IsPart c (ground arith))

-- A source id that the central service accepts is accepted by the agent, with the same owner and
-- the same repository.
pub validate-accepted :
    (source_id owner repository : Text)
    → validate_repository_id source_id ≡ ok (owner, repository)
    → agent_repository_parts source_id ≡ ok (owner, repository)
unfolding validate_repository_id agent_repository_parts
validate-accepted source_id owner repository h = go (split b'/' (strip source_id)) h
  where
    go :
        (parts : List Text)
        → Paths.repository_parts parts ≡ ok (owner, repository)
        → two_parts parts ≡ ok (owner, repository)
    go (a ∷ b ∷ []) h =
        let p = repository_part-agent a (ground arith) (ground arith) in
        let q = repository_part-agent b (ground arith) (ground arith) in ground arith
    go (a ∷ b ∷ c ∷ r) h = cc
    go (a ∷ []) h = cc
    go [] h = cc

All-first :
    (s : Text)
    → All (λ c. (c == b'/' ≡ false) × (c == b'\\' ≡ false) × (c == b':' ≡ false)) s
    → All (λ c. c == b'/' ≡ false) s
All-first [] h = tt
All-first (c ∷ s) h = (h.0.0, All-first s h.1)

name-IsKept : (part : Text) → IsName part → IsKept part
unfolding is_dots text_eq
name-IsKept [] n = absurd (n.0 refl)
name-IsKept (c ∷ s) n = (ground arith, All-first (c ∷ s) n.2)

All-append : (P : Text → Type 0) (xs ys : List Text) → All P xs → All P ys → All P (xs ++ ys)
All-append P [] ys p q = q
All-append P (x ∷ xs) ys p q = (p.0, All-append P xs ys p.1 q)

provider-IsName : (provider : ModelProvider) → IsKept (provider_text provider)
unfolding provider_text text_eq
provider-IsName huggingface = (
  refl,
  (refl, (refl, (refl, (refl, (refl, (refl, (refl, (refl, (refl, (refl, (refl, tt))))))))))),
)
provider-IsName modelscope =
    (refl, (refl, (refl, (refl, (refl, (refl, (refl, (refl, (refl, (refl, (refl, tt)))))))))))

place-IsPosix :
    (root : PurePath) (provider : ModelProvider) (owner repository : Text)
    → IsPosix root
    → IsName owner
    → IsName repository
    → IsPosix (place root provider owner repository)
place-IsPosix root provider owner repository posix o r = (
  posix.0,
  posix.1,
  All-append IsKept root.parts _ posix.2
      (provider-IsName provider, (name-IsKept owner o, (name-IsKept repository r, tt))),
)

same_parts_refl : (ps : List Text) → same_parts ps ps ≡ true
unfolding same_parts
same_parts_refl [] = refl
same_parts_refl (p ∷ ps) = rw (text_eq_refl p, same_parts_refl ps) refl

pub same_path_refl : (p : PurePath) → same_path p p ≡ true
unfolding same_path
same_path_refl p = rw (text_eq_refl p.anchor, same_parts_refl p.parts) refl

provider_text-IsName : (provider : ModelProvider) → IsName (provider_text provider)
unfolding provider_text is_dots text_eq every is_part_character is_alphanumeric
provider_text-IsName huggingface = (λ e. cc, refl, every-All (provider_text huggingface) refl)
provider_text-IsName modelscope = (λ e. cc, refl, every-All (provider_text modelscope) refl)

-- A file system in which `root` is a directory and no path of plain names below it is a link.
-- Nothing is said of a path that has a `..`.
pub record IsPlain {S : Type 0} (fs : FileSystem S) (s : S) (root : PurePath) : Type 0 where
  pub root_unlinked : fs.is_symlink s root ≡ some false
  pub root_resolved : fs.resolve_strict s root ≡ some root
  pub root_directory : fs.is_dir s root ≡ some true
  pub resolved :
      (parts : List Text)
      → All IsName parts
      → fs.resolve s (under root parts) ≡ some (under root parts)
  pub unlinked :
      (parts : List Text) → All IsName parts → is_linked fs s (under root parts) ≡ ok false

module _ {S : Type 0} (fs : FileSystem S) where
  parents-IsPlain :
      (s : S) (root : PurePath) (a b c : Text)
      → IsPlain fs s root
      → IsName a
      → IsName b
      → check_parents fs s root (a ∷ b ∷ c ∷ []) ≡ ok tt
  unfolding check_parents
  parents-IsPlain s root a b c plain x y =
      rw
        (
          plain.unlinked (a ∷ []) (x, tt),
          append_assoc root.parts (a ∷ []) (b ∷ []),
          plain.unlinked (a ∷ b ∷ []) (x, (y, tt)),
        )
        refl

  agent_root-IsPlain :
      (s : S) (allowed : List PurePath) (command_root : Text)
      → IsPlain fs s (parse_posix command_root)
      → exists (same_path (parse_posix command_root)) allowed ≡ true
      → agent_root fs s allowed command_root ≡ ok (parse_posix command_root)
  unfolding agent_root
  agent_root-IsPlain s allowed command_root plain allows =
      rw (plain.root_unlinked, plain.root_resolved, plain.root_directory, allows) refl

  strict_target-IsPlain :
      (s : S) (root : PurePath) (provider : ModelProvider) (owner repository : Text)
      → IsPlain fs s root
      → IsPosix root
      → text_eq root.anchor [] ≡ false
      → IsName owner
      → IsName repository
      → strict_target fs s root (show_path (place root provider owner repository))
        ≡ ok (place root provider owner repository)
  unfolding strict_target same_path is_relative_to
  strict_target-IsPlain s root provider owner repository plain posix rooted o r =
      let parts = provider_text provider ∷ owner ∷ repository ∷ [] in
      rw
        (
          parse_posix-show_path (place root provider owner repository)
              (place-IsPosix root provider owner repository posix o r),
          rooted,
          plain.resolved parts (provider_text-IsName provider, (o, (r, tt))),
          text_eq_refl root.anchor,
          same_parts-append root.parts (provider_text provider) (owner ∷ repository ∷ []),
          is_prefix-append root.parts parts,
          drop-length_append root.parts parts,
          parents-IsPlain s root (provider_text provider) owner repository plain
              (provider_text-IsName provider) o,
        )
        refl

  -- A download whose target the central service computed from an absolute root is accepted by an
  -- agent that allows the root, as long as the root and the paths of plain names below it are no
  -- links: the agent computes the same place.
  pub central-IsAccepted :
      (parse_windows : Text → PurePath) (s : S) (allowed : List PurePath)
      (command : DownloadTaskCommand) (provider : ModelProvider)
      → command.provider ≡ provider_text provider
      → exists (λ c. c == b'\\') command.root_path ≡ false
      → text_eq (parse_posix command.root_path).anchor [] ≡ false
      → IsPlain fs s (parse_posix command.root_path)
      → exists (same_path (parse_posix command.root_path)) allowed ≡ true
      → build_target_path parse_windows command.root_path provider command.source_id
        ≡ ok command.target_path
      → (owner : Text) × (repository : Text) × (expected_download_target fs s allowed command
          ≡ ok (
            parse_posix command.root_path,
            place (parse_posix command.root_path) provider owner repository,
          ))
  unfolding expected_download_target build_target_path base_path
  central-IsAccepted parse_windows s allowed command provider known slashes rooted plain allows h =
      let root = parse_posix command.root_path in
      let ((owner, repository), v, _) = >>=-eq-ok (validate_repository_id command.source_id) _ h in
      let (o, r) = validate-IsName command.source_id owner repository v in
      let based : base_path parse_windows command.root_path ≡ root = rw slashes refl in
      let shown : command.target_path ≡ show_path (place root provider owner repository) =
        let same : ok (
              show_path
                (place (base_path parse_windows command.root_path) provider owner repository))
            ≡ ok command.target_path =
          sym (
            build_target_path-ok parse_windows command.root_path provider command.source_id owner
              repository v)
          ∙ h in
        let injected : command.target_path
            ≡ show_path
                (place (base_path parse_windows command.root_path) provider owner repository) =
          cc in
        injected ∙ ap (λ x. show_path (place x provider owner repository)) based in
      (
        owner,
        repository,
        rw
            (
              agent_root-IsPlain s allowed command.root_path plain allows,
              validate-accepted command.source_id owner repository v,
              shown,
              strict_target-IsPlain s root provider owner repository plain
                  (parse_posix-IsPosix command.root_path) rooted o r,
              known,
              children-place root provider owner repository o r,
              same_path_refl (place root provider owner repository),
            )
            refl,
      )
