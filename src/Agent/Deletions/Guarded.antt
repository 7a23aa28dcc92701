-- ===== src/Agent/Deletions/Guarded.antt =====
-- A deletion removes one target, strictly below an allowed root, that is the model of the task.
use ai_infra_console.Prelude.{
  ◌≡◌, refl, ◌∙◌, ap, ◌⊎◌, inl, inr, Bool, true, false, ◌||◌, some, List, Result, ok, err, arith,
  >>=-eq-ok, guard-eq-ok, guard, exists, if◌then◌else◌,
}
use ai_infra_console.ModelTasks.Paths.{PurePath, parse_posix, same_path, is_relative_to}
use ai_infra_console.ModelTasks.Claims.{DeleteTaskCommand}
use ai_infra_console.Agent.Errors.{ExecutionError, model_mutations_disabled}
use ai_infra_console.Agent.Files.{FileSystem}
use ai_infra_console.Agent.Repository.{agent_root, strict_target}
use ai_infra_console.Agent.Repository.Confined.{root-IsAllowed, strict_target-resolved}
use ai_infra_console.Agent.Runtime.{Installation}
use ai_infra_console.Agent.Deletions.{
  Removal, absent, tree, file, manifest_matches, scan_matches, removal_of, is_absent, plan_delete,
  removed, perform, execute_delete,
}

module _ {S : Type 0} (fs : FileSystem S) where
  -- What a removed target is: the path that the command names resolves to it, strictly below a
  -- root that is allowed; it is no link; and a manifest in it or the scan names the command's
  -- source and source id.
  abbrev pub IsModel : S → List PurePath → List Installation → DeleteTaskCommand → PurePath → Type 0
  IsModel s allowed installations command target =
      (root : PurePath) × (exists (same_path root) allowed ≡ true)
      × (fs.resolve_strict s (parse_posix command.root_path) ≡ some root)
      × (fs.resolve s (parse_posix command.target_path) ≡ some target)
      × (same_path target root ≡ false)
      × (is_relative_to target root ≡ true)
      × (fs.is_symlink s target ≡ some false)
      × (manifest_matches fs s target command || scan_matches installations target command ≡ true)

  -- The state is left, or the target is removed, as a directory or as a file, when the agent's
  -- settings allow it.
  abbrev pub Touches : S → Bool → List PurePath → List Installation → DeleteTaskCommand → S → Type 0
  Touches s enabled allowed installations command s' =
      (s' ≡ s)
      ⊎ ((enabled ≡ true)
          × ((target : PurePath) × IsModel s allowed installations command target
              × (((fs.is_dir s target ≡ some true) × (s' ≡ (fs.rmtree s target).0))
                  ⊎ ((fs.is_dir s target ≡ some false) × (s' ≡ (fs.unlink s target).0)))))

  removal_of-tree :
      (s : S) (installations : List Installation) (command : DeleteTaskCommand)
      (target target' : PurePath)
      → removal_of fs s installations command target ≡ ok (tree target')
      → (target' ≡ target)
        × (fs.is_symlink s target ≡ some false)
        × (manifest_matches fs s target command || scan_matches installations target command ≡ true)
        × (fs.is_dir s target ≡ some true)
  unfolding removal_of
  removal_of-tree s installations command target target' h = ground arith

  removal_of-file :
      (s : S) (installations : List Installation) (command : DeleteTaskCommand)
      (target target' : PurePath)
      → removal_of fs s installations command target ≡ ok (file target')
      → (target' ≡ target)
        × (fs.is_symlink s target ≡ some false)
        × (manifest_matches fs s target command || scan_matches installations target command ≡ true)
        × (fs.is_dir s target ≡ some false)
  unfolding removal_of
  removal_of-file s installations command target target' h = ground arith

  removal_of-absent :
      (s : S) (installations : List Installation) (command : DeleteTaskCommand) (target : PurePath)
      → removal_of fs s installations command target ≡ ok absent
      → ⊥
  unfolding removal_of
  removal_of-absent s installations command target h = ground arith

  -- The parts of a plan that removes something.
  plan-parts :
      (s : S) (enabled : Bool) (allowed : List PurePath) (installations : List Installation)
      (command : DeleteTaskCommand) (removal : Removal)
      → plan_delete fs s enabled allowed installations command ≡ ok removal
      → (enabled ≡ true)
        × ((root : PurePath) × (target : PurePath) × (agent_root fs s allowed command.root_path
              ≡ ok root)
            × (strict_target fs s root command.target_path ≡ ok target)
            × ((removal ≡ absent) ⊎ (removal_of fs s installations command target ≡ ok removal)))
  unfolding plan_delete
  plan-parts s enabled allowed installations command removal h =
      let (u, e, h₁) = >>=-eq-ok (guard enabled model_mutations_disabled) _ h in
      let (root, r, h₂) = >>=-eq-ok (agent_root fs s allowed command.root_path) _ h₁ in
      let (target, t, h₃) = >>=-eq-ok (strict_target fs s root command.target_path) _ h₂ in
      let (gone, g, h₄) = >>=-eq-ok (is_absent fs s target) _ h₃ in
      (guard-eq-ok _ _ e, (root, target, r, t, split gone target h₄))
    where
      split :
          (gone : Bool) (target : PurePath)
          → (if gone then ok absent else removal_of fs s installations command target) ≡ ok removal
          → (removal ≡ absent) ⊎ (removal_of fs s installations command target ≡ ok removal)
      split true target h = inl cc
      split false target h = inr h

  removed-state : (outcome : S × Bool) → (removed fs outcome).0 ≡ outcome.0
  removed-state (s, true) = refl
  removed-state (s, false) = refl

  target-IsModel :
      (s : S) (allowed : List PurePath) (installations : List Installation)
      (command : DeleteTaskCommand) (root target : PurePath)
      → agent_root fs s allowed command.root_path ≡ ok root
      → strict_target fs s root command.target_path ≡ ok target
      → fs.is_symlink s target ≡ some false
      → manifest_matches fs s target command || scan_matches installations target command ≡ true
      → IsModel s allowed installations command target
  target-IsModel s allowed installations command root target r t link named =
      let (_, resolved_root, allows) = root-IsAllowed fs s allowed command.root_path root r in
      let (resolved, differs, below, _) =
        strict_target-resolved fs s root command.target_path target t in
      (root, allows, resolved_root, resolved, differs, below, link, named)

  -- A deletion leaves the file system as it is, or removes one target, which is the model that the
  -- command names, strictly below an allowed root and no link, when the settings allow deletions.
  pub execute_delete-Touches :
      (s : S) (enabled : Bool) (allowed : List PurePath) (installations : List Installation)
      (command : DeleteTaskCommand)
      → Touches s enabled allowed installations command
          (execute_delete fs s enabled allowed installations command).0
  unfolding execute_delete perform
  execute_delete-Touches s enabled allowed installations command =
      go (plan_delete fs s enabled allowed installations command) refl
    where
      go :
          (plan : Result ExecutionError Removal)
          → plan_delete fs s enabled allowed installations command ≡ plan
          → Touches s enabled allowed installations command (perform fs s plan).0
      go (err e) h = inl refl
      go (ok absent) h = inl refl
      go (ok (tree place)) h =
          let (on, (root, target, r, t, planned)) =
            plan-parts s enabled allowed installations command (tree place) h in
          elim planned [
            | inl never ↦ cc
            | inr p ↦
                let (same, link, named, directory) =
                  removal_of-tree s installations command target place p in
                inr (
                  on,
                  (
                    target,
                    target-IsModel s allowed installations command root target r t link named,
                    inl (
                      directory,
                      removed-state (fs.rmtree s place) ∙ ap (λ x. (fs.rmtree s x).0) same,
                    ),
                  ),
                )
          ]
      go (ok (file place)) h =
          let (on, (root, target, r, t, planned)) =
            plan-parts s enabled allowed installations command (file place) h in
          elim planned [
            | inl never ↦ cc
            | inr p ↦
                let (same, link, named, directory) =
                  removal_of-file s installations command target place p in
                inr (
                  on,
                  (
                    target,
                    target-IsModel s allowed installations command root target r t link named,
                    inr (
                      directory,
                      removed-state (fs.unlink s place) ∙ ap (λ x. (fs.unlink s x).0) same,
                    ),
                  ),
                )
          ]
