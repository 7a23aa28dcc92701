-- ===== src/Agent/Runtime/Docker.antt =====
-- `DockerDeploymentRuntime`: creation and the lifecycle of a container. The Docker daemon is an
-- interface over its state; `str` of a UUID and of a double are `show_id` and `show_float`.
pub mod Lifecycle
use ai_infra_console.Prelude.{
  ℕ, zero, suc, ◌+◌, ◌-◌, ◌*◌, Text, text, text_eq, Bool, true, false, ◌&&◌, ◌||◌, not, Option,
  none, some, List, [], ◌∷◌, ◌==◌, Result, ok, err, guard, length, if◌then◌else◌, leb,
}
use ai_infra_console.Db.Deployments.{Float64, Action}
use ai_infra_console.ModelTasks.Paths.{PurePath, show_path}
use ai_infra_console.Deployments.Eligibility.{decimal}
use ai_infra_console.Deployments.Reports.{ObservedState, running, stopped, missing}
use ai_infra_console.Deployments.Commands.{
  DeploymentCreateCommand, DeploymentLifecycleCommand, DeploymentCommand, lifecycle, creation,
}
use ai_infra_console.Agent.Errors.{
  ExecutionError, os_error, vllm_image_not_allowed, deployment_gpu_count_mismatch,
  deployment_port_conflict, deployments_disabled, foreign_container_conflict,
  managed_container_missing, vllm_image_unavailable, docker_operation_failed,
}
use ai_infra_console.Agent.Arguments.{build_vllm_arguments}
use ai_infra_console.Agent.Runtime.{DeploymentExecutionResult, AgentSettings}

-- A container as the client returns it: the labels that the runtime reads, and whether its status
-- is `running`.
pub record Container : Type 0 where
  pub id : Text
  pub managed_label : Option Text
  pub deployment_label : Option Text
  pub generation_label : Option Text
  pub port_label : Option Text
  pub is_running : Bool

-- What `containers.create` is called with, as far as it depends on the command: the hardening
-- options and the `managed` label are the same in every call.
pub record ContainerRequest : Type 0 where
  pub image : Text
  pub command : List Text
  pub name : Text
  pub deployment_label : Text
  pub generation_label : Text
  pub port_label : Text
  pub gpu_indexes : List ℕ
  pub volume : Text
  pub port : ℕ
  pub device_ids : List Text

-- A call of the daemon: what it returns, or the exception that it raises.
pub data Answer (A : Type 0) : Type 0 where
  returned : A → Answer A
  not_found image_not_found api_error : Answer A

pub record Docker (D : Type 0) : Type 0 where
  pub get : Text → D → Answer Container
  -- `container.reload()` of the container with the id: what it is now
  pub reload : Text → D → Answer Container
  pub start : Text → D → D × Answer (Unit {0})
  pub stop : Text → D → D × Answer (Unit {0})
  pub restart : Text → D → D × Answer (Unit {0})
  pub remove : Text → D → D × Answer (Unit {0})
  pub create : ContainerRequest → D → D × Answer Text
  -- `_port_available(port)`: nothing answers on the port
  pub port_available : ℕ → D → Bool

-- A step of the runtime on the state of the daemon, which may raise.
abbrev pub Step : Type 0 → Type 0 → Type 0
Step D A = D → D × Result ExecutionError A

-- An exception of the daemon, as `execute` reports it.
abbrev pub raised : {A : Type 0} → Answer A → Result ExecutionError A
raised (returned value) = ok value
raised image_not_found = err vllm_image_unavailable
raised _ = err docker_operation_failed

module _ {D : Type 0} where
  infixl 5 ◌>>=◌
  infixl 5 ◌>>◌
  abbrev pub ◌>>=◌ : {A B : Type 0} → Step D A → (A → Step D B) → Step D B
  (step >>= rest) d = elim (step d).1 [
    | err e ↦ ((step d).0, err e)
    | ok value ↦ rest value (step d).0
  ]

  abbrev pub ◌>>◌ : {A B : Type 0} → Step D A → Step D B → Step D B
  step >> rest = step >>= λ _. rest

  abbrev pub pure : {A : Type 0} → Result ExecutionError A → Step D A
  pure result d = (d, result)

  abbrev pub call : {A : Type 0} → (D → D × Answer A) → Step D A
  call effect d = ((effect d).0, raised (effect d).1)

-- `labels.get(key) == value`
abbrev pub has_label : Option Text → Text → Bool
has_label none value = false
has_label (some label) value = text_eq label value

abbrev pub all_digits : Text → Bool
all_digits [] = true
all_digits (c ∷ s) = leb 48 c && leb c 57 && all_digits s

abbrev pub number_from : ℕ → Text → ℕ
number_from n [] = n
number_from n (c ∷ s) = number_from (n * 10 + (c - 48)) s

-- `int(port_text) if port_text.isdigit() else None`; the runtime wrote the label, in ASCII
pub port_of : Option Text → Option ℕ
port_of none = none
port_of (some []) = none
port_of (some (c ∷ s)) = if all_digits (c ∷ s) then some (number_from 0 (c ∷ s)) else none

module _ {D : Type 0} (docker : Docker D) (show_id : ℕ → Text) (show_float : Float64 → Text) where
  unfoldable pub is_owned : Container → ℕ → ℕ → Bool
  unfolding text decimal
  is_owned container deployment_id generation =
      has_label container.managed_label (text "true")
      && has_label container.deployment_label (show_id deployment_id)
      && has_label container.generation_label (decimal generation)

  -- What `containers.get` answers, with the labels checked; `ImageNotFound` is a `NotFound`.
  judged : ℕ → ℕ → Answer Container → Result ExecutionError (Option Container)
  unfolding is_owned
  judged deployment_id generation not_found = ok none
  judged deployment_id generation (returned container) =
      if is_owned container deployment_id generation
      then ok (some container)
      else err foreign_container_conflict
  judged deployment_id generation image_not_found = ok none
  judged deployment_id generation api_error = err docker_operation_failed

  unfoldable pub owned_container : Text → ℕ → ℕ → Step D (Option Container)
  unfolding judged
  owned_container name deployment_id generation d =
      (d, judged deployment_id generation (docker.get name d))

  check_port : ℕ → Step D (Unit {0})
  check_port port d = (d, guard (docker.port_available port d) deployment_port_conflict)

  request_for : DeploymentCreateCommand → List Text → PurePath → ContainerRequest
  unfolding show_path decimal
  request_for command arguments model_path = record {
    image = command.image;
    command = arguments;
    name = command.container_name;
    deployment_label = show_id command.deployment_id;
    generation_label = decimal command.generation;
    port_label = decimal command.port;
    gpu_indexes = command.gpu_indexes;
    volume = show_path model_path;
    port = command.port;
    device_ids = command.gpu_uuids;
  }

  create_new : DeploymentCreateCommand → PurePath → Step D DeploymentExecutionResult
  unfolding check_port request_for build_vllm_arguments
  create_new command model_path = do
    check_port command.port
    arguments ← pure (build_vllm_arguments show_float command)
    id ← call (docker.create (request_for command arguments model_path))
    call (docker.start id)
    pure (ok (record { state = running; container_id = some id }))

  -- An existing container is started unless it runs.
  start_stopped : DeploymentCreateCommand → Container → Step D (Unit {0})
  unfolding check_port
  start_stopped command existing =
      let start = check_port command.port >> call (docker.start existing.id) in
      if existing.is_running then pure (ok tt) else start

  -- `existing.reload()`, which may raise, and has the status that counts.
  create_on :
      DeploymentCreateCommand → PurePath → Option Container → Step D DeploymentExecutionResult
  unfolding start_stopped create_new
  create_on command model_path none = create_new command model_path
  create_on command model_path (some owned) = do
    existing ← call (λ d. (d, docker.reload owned.id d))
    start_stopped command existing
    pure (ok (record { state = running; container_id = some existing.id }))

  -- `_create`, with the outcome of `_validated_model_path`
  unfoldable pub create :
      AgentSettings
      → Result ExecutionError PurePath
      → DeploymentCreateCommand
      → Step D DeploymentExecutionResult
  unfolding create_on
  create settings validated command = do
    pure (guard (text_eq command.image settings.vllm_image) vllm_image_not_allowed)
    pure (
        guard
          (length command.gpu_indexes == command.config.tensor_parallel_size
            && length command.gpu_uuids == command.config.tensor_parallel_size)
          deployment_gpu_count_mismatch)
    model_path ← pure validated
    existing ← owned_container command.container_name command.deployment_id command.generation
    create_on command model_path existing

  without_container : Action → Result ExecutionError DeploymentExecutionResult
  without_container Action.stop = ok (record { state = missing; container_id = none })
  without_container Action.delete = ok (record { state = missing; container_id = none })
  without_container _ = err managed_container_missing

  free_port : Option ℕ → Step D (Unit {0})
  unfolding check_port
  free_port none = pure (ok tt)
  free_port (some port) = check_port port

  -- The last branch is the deletion.
  on_container : Action → Container → Step D DeploymentExecutionResult
  unfolding port_of free_port
  on_container Action.start container = do
    free_port (port_of container.port_label)
    call (docker.start container.id)
    pure (ok (record { state = running; container_id = some container.id }))
  on_container Action.stop container = do
    call (docker.stop container.id)
    pure (ok (record { state = stopped; container_id = some container.id }))
  on_container Action.restart container = do
    call (docker.restart container.id)
    pure (ok (record { state = running; container_id = some container.id }))
  on_container _ container = do
    call (docker.stop container.id)
    call (docker.remove container.id)
    pure (ok (record { state = missing; container_id = none }))

  dispatch : Action → Option Container → Step D DeploymentExecutionResult
  unfolding without_container on_container
  dispatch kind none = pure (without_container kind)
  dispatch kind (some container) = on_container kind container

  unfoldable pub run_lifecycle : DeploymentLifecycleCommand → Step D DeploymentExecutionResult
  unfolding dispatch owned_container
  run_lifecycle command = do
    owned ← owned_container command.container_name command.deployment_id command.generation
    dispatch command.kind owned

  -- An `OSError` of the checks is reported as a failed operation.
  caught : Result ExecutionError PurePath → Result ExecutionError PurePath
  caught (err os_error) = err docker_operation_failed
  caught result = result

  unfoldable pub execute :
      AgentSettings
      → Result ExecutionError PurePath
      → DeploymentCommand
      → Step D DeploymentExecutionResult
  unfolding caught
  execute settings validated (creation command) =
      pure (guard settings.enable_deployments deployments_disabled)
      >> create settings (caught validated) command
  execute settings validated (lifecycle command) =
      pure (guard settings.enable_deployments deployments_disabled) >> run_lifecycle command
