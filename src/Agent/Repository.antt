-- ===== src/Agent/Repository.antt =====
-- The agent's own checks on a model task's paths: `_repository_parts`, `_root`, `_strict_target`
-- and `_expected_download_target` of model_tasks.py.
pub mod Central
pub mod Confined
use ai_infra_console.Prelude.{
  ℕ, Text, text, text_eq, Bool, true, false, ◌&&◌, ◌||◌, not, Option, none, some, List, [], ◌∷◌,
  ◌++◌, Result, ok, err, found, guard, ◌>>=◌, ◌>>◌, exists, length, drop, if◌then◌else◌,
}
use ai_infra_console.Strings.{strip, split}
use ai_infra_console.ModelTasks.Paths.{
  is_part_character, every, is_dots, PurePath, parse_posix, child, same_path, is_relative_to,
}
use ai_infra_console.ModelTasks.Claims.{DownloadTaskCommand}
use ai_infra_console.Agent.Errors.{
  ExecutionError, invalid_source_id, model_root_symlink, model_root_unavailable,
  model_root_not_allowed, invalid_target_path, target_outside_model_root, target_symlink_parent,
  target_path_mismatch,
}
use ai_infra_console.Agent.Files.{FileSystem, ask}

-- A part that passes the three tests.
abbrev pub is_agent_part : Text → Bool
is_agent_part part = not (text_eq part []) && not (is_dots part) && every is_part_character part

two_parts : List Text → Result ExecutionError (Text × Text)
two_parts (owner ∷ repository ∷ []) = do
  guard (is_agent_part owner && is_agent_part repository) invalid_source_id
  ok (owner, repository)
two_parts _ = err invalid_source_id

unfoldable pub agent_repository_parts : Text → Result ExecutionError (Text × Text)
unfolding two_parts
agent_repository_parts source_id = two_parts (split b'/' (strip source_id))

module _ {S : Type 0} (fs : FileSystem S) where
  -- `_root`, over the directories that the agent's settings allow
  unfoldable pub agent_root : S → List PurePath → Text → Result ExecutionError PurePath
  unfolding parse_posix
  agent_root s allowed command_root = do
    link ← found (fs.is_symlink s (parse_posix command_root)) model_root_unavailable
    guard (not link) model_root_symlink
    resolved ← found (fs.resolve_strict s (parse_posix command_root)) model_root_unavailable
    directory ← ask (fs.is_dir s resolved)
    guard (directory && exists (same_path resolved) allowed) model_root_not_allowed
    ok resolved

  -- `current.exists() and current.is_symlink()`
  unfoldable pub is_linked : S → PurePath → Result ExecutionError Bool
  is_linked s current = do
    present ← ask (fs.exists s current)
    elim present [ true ↦ ask (fs.is_symlink s current) | false ↦ ok false ]

  -- The loop over `relative.parts[:-1]` below `current`.
  unfoldable pub check_parents : S → PurePath → List Text → Result ExecutionError (Unit {0})
  check_parents s current [] = ok tt
  check_parents s current (last ∷ []) = ok tt
  check_parents s current (part ∷ next ∷ parts) =
      let below = record current { parts = current.parts ++ part ∷ [] } in
      let rest = check_parents s below (next ∷ parts) in
      do linked ← is_linked s below; guard (not linked) target_symlink_parent; rest

  unfoldable pub strict_target : S → PurePath → Text → Result ExecutionError PurePath
  unfolding check_parents
  strict_target s root target_path = do
    guard (not (text_eq (parse_posix target_path).anchor [])) invalid_target_path
    resolved ← ask (fs.resolve s (parse_posix target_path))
    guard (not (same_path resolved root) && is_relative_to resolved root) target_outside_model_root
    check_parents s root (drop (length root.parts) resolved.parts)
    ok resolved

  unfoldable pub expected_download_target :
      S → List PurePath → DownloadTaskCommand → Result ExecutionError (PurePath × PurePath)
  unfolding child
  expected_download_target s allowed command = do
    root ← agent_root s allowed command.root_path
    parts ← agent_repository_parts command.source_id
    supplied ← strict_target s root command.target_path
    guard (same_path supplied (child (child (child root command.provider) parts.0) parts.1))
        target_path_mismatch
    ok (root, child (child (child root command.provider) parts.0) parts.1)
