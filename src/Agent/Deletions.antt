-- ===== src/Agent/Deletions.antt =====
-- `execute_delete` of model_tasks.py, with `_manifest`. What `scan_model_directory` found is an
-- argument; a removal that fails half-way raises.
pub mod Guarded
use ai_infra_console.Prelude.{
  ℕ, Text, text, text_eq, Bool, true, false, ◌&&◌, ◌||◌, not, Option, none, some, List, [], ◌∷◌,
  ◌++◌, ltb, Result, ok, err, guard, ◌>>=◌, ◌>>◌, exists, if◌then◌else◌,
}
use ai_infra_console.Json.{Json, str, obj, end, get}
use ai_infra_console.ModelTasks.Paths.{PurePath, same_path}
use ai_infra_console.ModelTasks.Claims.{DeleteTaskCommand}
use ai_infra_console.Agent.Errors.{
  ExecutionError, os_error, model_mutations_disabled, delete_target_symlink,
  delete_target_special_file, delete_identity_mismatch,
}
use ai_infra_console.Agent.Files.{FileSystem, ask}
use ai_infra_console.Agent.Repository.{agent_root, strict_target}
use ai_infra_console.Agent.Runtime.{Installation}

-- `value == text`, of a value of JSON
unfoldable pub is_text : Json → Text → Bool
unfolding text_eq
is_text (str value) expected = text_eq value expected
is_text _ expected = false

-- `value if isinstance(value, dict) else {}`
abbrev pub as_dict : Option Json → Json
as_dict (some (obj fields)) = obj fields
as_dict _ = obj end

-- What is done after the checks.
pub data Removal : Type 0 where
  absent : Removal
  tree : PurePath → Removal
  file : PurePath → Removal

-- `any(...)` over the installations of the scan
unfoldable pub scan_matches : List Installation → PurePath → DeleteTaskCommand → Bool
scan_matches installations target command =
    exists
      (λ item.
        same_path item.path target
        && text_eq item.source command.source
        && text_eq item.source_id command.source_id)
      installations

module _ {S : Type 0} (fs : FileSystem S) where
  -- `manifest.is_symlink() or manifest.stat().st_size > 16_384`, or an `OSError` of these
  is_unreadable : S → PurePath → Bool
  is_unreadable s path = elim (fs.is_symlink s path) [
    | none ↦ true
    | some true ↦ true
    | some false ↦ elim (fs.file_size s path) [ none ↦ true | some size ↦ ltb 16_384 size ]
  ]

  -- `_manifest`
  unfoldable pub manifest : S → PurePath → Json
  unfolding is_unreadable text
  manifest s path =
      let inside = record path { parts = path.parts ++ text ".ai-infra-source.json" ∷ [] } in
      if is_unreadable s inside then obj end else as_dict (fs.read_json s inside)

  -- The manifest of a directory names the command's source.
  unfoldable pub manifest_matches : S → PurePath → DeleteTaskCommand → Bool
  unfolding manifest is_text text
  manifest_matches s target command =
      is_text (get (text "source") (manifest s target)) command.source
      && is_text (get (text "source_id") (manifest s target)) command.source_id

  -- The checks on a target that is there.
  removal_of : S → List Installation → DeleteTaskCommand → PurePath → Result ExecutionError Removal
  unfolding manifest_matches scan_matches
  removal_of s installations command target = do
    link ← ask (fs.is_symlink s target)
    guard (not link) delete_target_symlink
    regular ← ask (fs.is_file s target)
    directory ← ask (fs.is_dir s target)
    guard (regular || directory) delete_target_special_file
    guard
        ((directory && manifest_matches s target command)
          || scan_matches installations target command)
        delete_identity_mismatch
    ok (if directory then tree target else file target)

  -- `not target.exists() and not target.is_symlink()`
  is_absent : S → PurePath → Result ExecutionError Bool
  is_absent s target = do
    present ← ask (fs.exists s target)
    elim present [ true ↦ ok false | false ↦ do link ← ask (fs.is_symlink s target); ok (not link) ]

  unfoldable pub plan_delete :
      S
      → Bool
      → List PurePath
      → List Installation
      → DeleteTaskCommand
      → Result ExecutionError Removal
  unfolding removal_of is_absent
  plan_delete s enabled allowed installations command = do
    guard enabled model_mutations_disabled
    root ← agent_root fs s allowed command.root_path
    target ← strict_target fs s root command.target_path
    gone ← is_absent s target
    if gone then ok absent else removal_of s installations command target

  -- `shutil.rmtree(target)` or `target.unlink()`
  abbrev pub removed : S × Bool → S × Result ExecutionError (Unit {0})
  removed (s, true) = (s, ok tt)
  removed (s, false) = (s, err os_error)

  perform : S → Result ExecutionError Removal → S × Result ExecutionError (Unit {0})
  perform s (err e) = (s, err e)
  perform s (ok absent) = (s, ok tt)
  perform s (ok (tree target)) = removed (fs.rmtree s target)
  perform s (ok (file target)) = removed (fs.unlink s target)

  -- `execute_delete`: the state after it, and whether it raises.
  unfoldable pub execute_delete :
      S
      → Bool
      → List PurePath
      → List Installation
      → DeleteTaskCommand
      → S × Result ExecutionError (Unit {0})
  unfolding plan_delete perform
  execute_delete s enabled allowed installations command =
      perform s (plan_delete s enabled allowed installations command)
