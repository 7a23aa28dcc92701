-- ===== src/Agent/Repository/Confined.antt =====
-- The directory that the agent downloads to lies at its computed place below an allowed root.
use mathlib.Core.List.{append_assoc}
use ai_infra_console.Prelude.{
  Text, text_eq, text_eq_iff, ◌≡◌, refl, sym, ◌∙◌, ap, Bool, true, false, not, some, List, [], ◌∷◌,
  ◌++◌, ok, arith, >>=-eq-ok, guard-eq-ok, and-eq_true, exists, guard, length, drop,
}
use ai_infra_console.Strings.{strip, split}
use ai_infra_console.ModelTasks.Paths.{
  ModelProvider, provider_text, PurePath, parse_posix, child, same_path, same_parts, is_relative_to,
}
use ai_infra_console.ModelTasks.Paths.Inside.{
  IsName, every-All, kept_parts-IsName, kept_parts-provider,
}
use ai_infra_console.ModelTasks.Claims.{DownloadTaskCommand}
use ai_infra_console.Agent.Errors.{target_symlink_parent, target_path_mismatch}
use ai_infra_console.Agent.Files.{FileSystem}
use ai_infra_console.Agent.Repository.{
  is_agent_part, two_parts, agent_repository_parts, agent_root, strict_target, check_parents,
  is_linked, expected_download_target,
}

agent_part-IsName : (part : Text) → is_agent_part part ≡ true → IsName part
unfolding text_eq
agent_part-IsName [] h = cc
agent_part-IsName (c ∷ s) h = (λ e. cc, ground arith, every-All (c ∷ s) (ground arith))

-- A source id that the agent accepts is two plain names.
pub agent_parts-IsName :
    (source_id owner repository : Text)
    → agent_repository_parts source_id ≡ ok (owner, repository)
    → IsName owner × IsName repository
unfolding agent_repository_parts
agent_parts-IsName source_id owner repository h = go (split b'/' (strip source_id)) h
  where
    go :
        (parts : List Text)
        → two_parts parts ≡ ok (owner, repository)
        → IsName owner × IsName repository
    go (a ∷ b ∷ []) h =
        (agent_part-IsName owner (ground arith), agent_part-IsName repository (ground arith))
    go (a ∷ b ∷ c ∷ r) h = cc
    go (a ∷ []) h = cc
    go [] h = cc

-- The path of a download below a root.
abbrev pub place : PurePath → ModelProvider → Text → Text → PurePath
place root provider owner repository = record root {
  parts = root.parts ++ provider_text provider ∷ owner ∷ repository ∷ [];
}

pub children-place :
    (root : PurePath) (provider : ModelProvider) (owner repository : Text)
    → IsName owner
    → IsName repository
    → child (child (child root (provider_text provider)) owner) repository
      ≡ place root provider owner repository
unfolding child
children-place root provider owner repository o r =
    simp
      (kept_parts-provider, kept_parts-IsName owner o, kept_parts-IsName repository r, append_assoc)

same_parts_sound : (ps qs : List Text) → same_parts ps qs ≡ true → ps ≡ qs
unfolding same_parts
same_parts_sound [] [] h = refl
same_parts_sound (p ∷ ps) (q ∷ qs) h =
    let (e, rest) = and-eq_true (text_eq p q) (same_parts ps qs) h in
    rw ((text_eq_iff p q).0 e, same_parts_sound ps qs rest) refl
same_parts_sound [] (q ∷ qs) h = cc
same_parts_sound (p ∷ ps) [] h = cc

-- Equal paths have the same anchor and the same parts.
pub same_path_sound :
    (p q : PurePath) → same_path p q ≡ true → (p.anchor ≡ q.anchor) × (p.parts ≡ q.parts)
unfolding same_path
same_path_sound p q h =
    let (a, b) = and-eq_true (text_eq p.anchor q.anchor) (same_parts p.parts q.parts) h in
    ((text_eq_iff p.anchor q.anchor).0 a, same_parts_sound p.parts q.parts b)

pub drop-length_append : (ps qs : List Text) → drop (length ps) (ps ++ qs) ≡ qs
drop-length_append [] qs = refl
drop-length_append (p ∷ ps) qs = drop-length_append ps qs

-- The directory `parts` below a root.
abbrev pub under : PurePath → List Text → PurePath
under root parts = record root { parts = root.parts ++ parts }

module _ {S : Type 0} (fs : FileSystem S) where
  pub root-IsAllowed :
      (s : S) (allowed : List PurePath) (command_root : Text) (root : PurePath)
      → agent_root fs s allowed command_root ≡ ok root
      → (fs.is_symlink s (parse_posix command_root) ≡ some false)
        × (fs.resolve_strict s (parse_posix command_root) ≡ some root)
        × (exists (same_path root) allowed ≡ true)
  unfolding agent_root
  root-IsAllowed s allowed command_root root h = ground arith

  pub strict_target-resolved :
      (s : S) (root : PurePath) (target_path : Text) (target : PurePath)
      → strict_target fs s root target_path ≡ ok target
      → (fs.resolve s (parse_posix target_path) ≡ some target)
        × (same_path target root ≡ false)
        × (is_relative_to target root ≡ true)
        × (check_parents fs s root (drop (length root.parts) target.parts) ≡ ok tt)
  unfolding strict_target
  strict_target-resolved s root target_path target h = ground arith

  -- Of three parts below the root, the first two are looked at.
  parents-unlinked :
      (s : S) (root : PurePath) (a b c : Text)
      → check_parents fs s root (a ∷ b ∷ c ∷ []) ≡ ok tt
      → (is_linked fs s (under root (a ∷ [])) ≡ ok false)
        × (is_linked fs s (under root (a ∷ b ∷ [])) ≡ ok false)
  unfolding check_parents
  parents-unlinked s root a b c h =
      let (first, l, h₁) = >>=-eq-ok (is_linked fs s (under root (a ∷ []))) _ h in
      let (u, g, h₂) = >>=-eq-ok (guard (not first) target_symlink_parent) _ h₁ in
      let (second, m, h₃) =
        >>=-eq-ok (is_linked fs s (under (under root (a ∷ [])) (b ∷ []))) _ h₂ in
      let (u', g', _) = >>=-eq-ok (guard (not second) target_symlink_parent) _ h₃ in
      let twice : under (under root (a ∷ [])) (b ∷ []) ≡ under root (a ∷ b ∷ []) =
        ap (λ ps. record root { parts = ps }) (append_assoc root.parts (a ∷ []) (b ∷ [])) in
      (
        l ∙ ap ok (unlinked first (guard-eq-ok _ _ g)),
        sym (ap (is_linked fs s) twice) ∙ m ∙ ap ok (unlinked second (guard-eq-ok _ _ g')),
      )
    where
      unlinked : (b : Bool) → not b ≡ true → b ≡ false
      unlinked b h = ground arith

  expected-parts :
      (s : S) (allowed : List PurePath) (command : DownloadTaskCommand) (root target : PurePath)
      → expected_download_target fs s allowed command ≡ ok (root, target)
      → (owner : Text) × (repository : Text) × (supplied : PurePath) × (agent_root fs s allowed
            command.root_path
          ≡ ok root)
        × (agent_repository_parts command.source_id ≡ ok (owner, repository))
        × (strict_target fs s root command.target_path ≡ ok supplied)
        × (same_path supplied target ≡ true)
        × (target ≡ child (child (child root command.provider) owner) repository)
  unfolding expected_download_target
  expected-parts s allowed command root target h =
      let (root', r, h₁) = >>=-eq-ok (agent_root fs s allowed command.root_path) _ h in
      let (parts, p, h₂) = >>=-eq-ok (agent_repository_parts command.source_id) _ h₁ in
      let (supplied, t, h₃) = >>=-eq-ok (strict_target fs s root' command.target_path) _ h₂ in
      let (u, g, h₄) =
        >>=-eq-ok
          (guard (same_path supplied (child (child (child root' command.provider) parts.0) parts.1))
            target_path_mismatch)
          _ h₃ in
      let same : root' ≡ root = cc in
      let placed : child (child (child root' command.provider) parts.0) parts.1 ≡ target = cc in
      (
        parts.0,
        parts.1,
        supplied,
        r ∙ ap ok same,
        p,
        ap (λ x. strict_target fs s x command.target_path) (sym same) ∙ t,
        ap (same_path supplied) (sym placed) ∙ guard-eq-ok _ _ g,
        sym placed ∙ ap (λ x. child (child (child x command.provider) parts.0) parts.1) same,
      )

  -- What an accepted target is: the provider, a plain owner and a plain repository name below a
  -- root that is allowed; the requested path resolves there, without a link in between.
  abbrev pub IsConfined :
      S → List PurePath → DownloadTaskCommand → ModelProvider → PurePath → PurePath → Type 0
  IsConfined s allowed command provider root target =
      (exists (same_path root) allowed ≡ true)
      × ((owner : Text) × (repository : Text) × (supplied : PurePath) × IsName owner
          × IsName repository
          × (target ≡ place root provider owner repository)
          × (fs.resolve s (parse_posix command.target_path) ≡ some supplied)
          × (supplied.anchor ≡ target.anchor)
          × (supplied.parts ≡ target.parts)
          × (is_linked fs s (under root (provider_text provider ∷ [])) ≡ ok false)
          × (is_linked fs s (under root (provider_text provider ∷ owner ∷ [])) ≡ ok false))

  -- When the agent accepts a download of a known provider, its target is the provider, a plain
  -- owner and a plain repository name below a root that its settings allow; the requested path
  -- resolves to that place; and neither directory between the root and the target is a link.
  pub expected_download_target-IsConfined :
      (s : S) (allowed : List PurePath) (command : DownloadTaskCommand) (provider : ModelProvider)
      (root target : PurePath)
      → command.provider ≡ provider_text provider
      → expected_download_target fs s allowed command ≡ ok (root, target)
      → IsConfined s allowed command provider root target
  expected_download_target-IsConfined s allowed command provider root target known h =
      let (owner, repository, supplied, r, p, t, same, placed) =
        expected-parts s allowed command root target h in
      let (o, q) = agent_parts-IsName command.source_id owner repository p in
      let at_place : target ≡ place root provider owner repository =
        placed
        ∙ ap (λ x. child (child (child root x) owner) repository) known
        ∙ children-place root provider owner repository o q in
      let (resolved, _, _, parents) =
        strict_target-resolved s root command.target_path supplied t in
      let (anchors, parts) = same_path_sound supplied target same in
      let below : drop (length root.parts) supplied.parts
          ≡ provider_text provider ∷ owner ∷ repository ∷ [] =
        ap (drop (length root.parts)) (parts ∙ ap (λ x. x.parts) at_place)
        ∙ drop-length_append root.parts (provider_text provider ∷ owner ∷ repository ∷ []) in
      let (first, second) =
        parents-unlinked s root (provider_text provider) owner repository
          (sym (ap (check_parents fs s root) below) ∙ parents) in
      (
        (root-IsAllowed s allowed command.root_path root r).2,
        (owner, repository, supplied, o, q, at_place, resolved, anchors, parts, first, second),
      )
