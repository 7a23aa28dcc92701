-- ===== src/Agent/Runtime.antt =====
-- What the container runtimes of deployment_runtime.py share: the results, the labels of a
-- container, and `_validated_model_path`. What `scan_model_directory` found is an argument.
pub mod Docker
pub mod Fixture
pub mod Logs
use ai_infra_console.Prelude.{
  ℕ, Text, text_eq, Bool, true, false, ◌&&◌, ◌||◌, not, Option, none, some, List, [], ◌∷◌, ◌++◌,
  Result, ok, err, found, guard, ◌>>=◌, ◌>>◌, exists, length, drop, if◌then◌else◌,
}
use ai_infra_console.ModelTasks.Paths.{PurePath, parse_posix, same_path, is_relative_to}
use ai_infra_console.Deployments.Reports.{ObservedState}
use ai_infra_console.Deployments.Commands.{DeploymentCreateCommand}
use ai_infra_console.Agent.Errors.{
  ExecutionError, deployment_model_symlink, deployment_model_unavailable,
  deployment_root_not_allowed, deployment_model_outside_root, deployment_model_identity_mismatch,
}
use ai_infra_console.Agent.Files.{FileSystem, ask}

pub record DeploymentExecutionResult : Type 0 where
  pub state : ObservedState
  pub container_id : Option Text

-- What a scan of the root found: the path, as it resolves, the source and the source id.
pub record Installation : Type 0 where
  pub path : PurePath
  pub source : Text
  pub source_id : Text

-- The settings of the agent that a creation is checked against.
pub record AgentSettings : Type 0 where
  pub enable_deployments : Bool
  pub vllm_image : Text
  pub allowed_model_directories : List PurePath

module _ {S : Type 0} (fs : FileSystem S) where
  -- The loop over the parts of the model's path below `current`.
  check_links : S → PurePath → List Text → Result ExecutionError (Unit {0})
  check_links s current [] = ok tt
  check_links s current (part ∷ parts) =
      let below = record current { parts = current.parts ++ part ∷ [] } in
      let rest = check_links s below parts in
      do link ← ask (fs.is_symlink s below); guard (not link) deployment_model_symlink; rest

  unfoldable pub validated_model_path :
      S
      → AgentSettings
      → Bool
      → List Installation
      → DeploymentCreateCommand
      → Result ExecutionError PurePath
  unfolding parse_posix check_links
  validated_model_path s settings available installations command = do
    root_link ← found (fs.is_symlink s (parse_posix command.root_path)) deployment_model_unavailable
    guard (not root_link) deployment_model_symlink
    model_link ←
        found (fs.is_symlink s (parse_posix command.model_path)) deployment_model_unavailable
    guard (not model_link) deployment_model_symlink
    root ← found (fs.resolve_strict s (parse_posix command.root_path)) deployment_model_unavailable
    model ←
        found (fs.resolve_strict s (parse_posix command.model_path)) deployment_model_unavailable
    guard (exists (same_path root) settings.allowed_model_directories) deployment_root_not_allowed
    directory ← ask (fs.is_dir s root)
    guard directory deployment_root_not_allowed
    guard (not (same_path model root) && is_relative_to model root) deployment_model_outside_root
    check_links s root (drop (length root.parts) model.parts)
    guard
        (available
          && exists
              (λ item.
                same_path item.path model
                && text_eq item.source command.source
                && text_eq item.source_id command.source_id)
              installations)
        deployment_model_identity_mismatch
    ok model
