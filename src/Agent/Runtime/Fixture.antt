-- ===== src/Agent/Runtime/Fixture.antt =====
-- `FixtureDeploymentRuntime`: the runtime that keeps containers in memory, by deployment. `digest`
-- is the hexadecimal SHA-256 of a text, `show_id` the text of a UUID, and `one` the double 1.0.
pub mod Lifecycle
use ai_infra_console.Prelude.{
  ℕ, Text, text, text_eq, Bool, true, false, Option, none, some, List, [], ◌∷◌, map, ◌==◌, Result,
  ok, err, guard, ◌>>=◌, ◌>>◌, if◌then◌else◌,
}
use ai_infra_console.Json.{pos}
use ai_infra_console.Db.Deployments.{Float64, Action, healthy, unknown}
use ai_infra_console.ModelTasks.Paths.{PurePath}
use ai_infra_console.Deployments.Reports.{ObservedState, running, stopped, missing, failed}
use ai_infra_console.Deployments.Runtime.{LogReport, Observation, RuntimeExpectation}
use ai_infra_console.Deployments.Commands.{
  DeploymentCreateCommand, DeploymentLifecycleCommand, DeploymentCommand, lifecycle, creation,
}
use ai_infra_console.Agent.Errors.{
  ExecutionError, deployments_disabled, vllm_image_not_allowed, managed_container_missing,
}
use ai_infra_console.Agent.Arguments.{build_vllm_arguments}
use ai_infra_console.Agent.Runtime.{DeploymentExecutionResult, AgentSettings}

pub record FixtureContainer : Type 0 where
  pub deployment_id : ℕ
  pub generation : ℕ
  pub container_id : Text
  pub port : ℕ
  pub state : ObservedState
  pub logs : List LogReport

-- `dict[uuid.UUID, _FixtureContainer]`
abbrev pub Containers : Type 0
Containers = ℕ → Option FixtureContainer

abbrev pub store : ℕ → Option FixtureContainer → Containers → Containers
store id entry containers k = if id == k then entry else containers k

-- The container of a deployment in a generation.
unfoldable pub current_of : ℕ → ℕ → Containers → Option FixtureContainer
current_of id generation containers = elim (containers id) [
  | none ↦ none
  | some container ↦ if container.generation == generation then some container else none
]

without_container : Action → Result ExecutionError DeploymentExecutionResult
without_container Action.stop = ok (record { state = missing; container_id = none })
without_container Action.delete = ok (record { state = missing; container_id = none })
without_container _ = err managed_container_missing

-- The last branch is the deletion.
on_container :
    Action
    → ℕ
    → FixtureContainer
    → Containers
    → Result ExecutionError (DeploymentExecutionResult × Containers)
on_container Action.stop id c containers = ok (
  record { state = stopped; container_id = some c.container_id },
  store id (some (record c { state = stopped })) containers,
)
on_container Action.start id c containers = ok (
  record { state = running; container_id = some c.container_id },
  store id (some (record c { state = running })) containers,
)
on_container Action.restart id c containers = ok (
  record { state = running; container_id = some c.container_id },
  store id (some (record c { state = running })) containers,
)
on_container _ id c containers =
    ok (record { state = missing; container_id = none }, store id none containers)

dispatch :
    Action
    → ℕ
    → Option FixtureContainer
    → Containers
    → Result ExecutionError (DeploymentExecutionResult × Containers)
unfolding without_container on_container
dispatch kind id none containers = without_container kind >>= λ result. ok (result, containers)
dispatch kind id (some c) containers = on_container kind id c containers

unfoldable pub fixture_lifecycle :
    DeploymentLifecycleCommand
    → Containers
    → Result ExecutionError (DeploymentExecutionResult × Containers)
unfolding dispatch current_of
fixture_lifecycle command containers =
    dispatch command.kind command.deployment_id
      (current_of command.deployment_id command.generation containers) containers

module _ (digest : Text → Text) (show_id : ℕ → Text) (show_float : Float64 → Text)
    (one : Float64) where
  created : DeploymentCreateCommand → ℕ → FixtureContainer
  unfolding text
  created command now = record {
    deployment_id = command.deployment_id;
    generation = command.generation;
    container_id = digest (show_id command.deployment_id);
    port = command.port;
    state = running;
    logs =
        record {
          sequence = 1;
          timestamp = now;
          stream = text "stdout";
          message = text "INFO fixture vLLM runtime is ready";
        }
        ∷ [];
  }

  -- `execute`, with the outcome of `_validated_model_path`
  unfoldable pub fixture_execute :
      AgentSettings
      → Result ExecutionError PurePath
      → ℕ
      → DeploymentCommand
      → Containers
      → Result ExecutionError (DeploymentExecutionResult × Containers)
  unfolding created build_vllm_arguments
  fixture_execute settings validated now (creation command) containers = do
    guard settings.enable_deployments deployments_disabled
    guard (text_eq command.image settings.vllm_image) vllm_image_not_allowed
    validated
    build_vllm_arguments show_float command
    ok (
      record { state = running; container_id = some (digest (show_id command.deployment_id)) },
      store command.deployment_id (some (created command now)) containers,
    )
  fixture_execute settings validated now (lifecycle command) containers = do
    guard settings.enable_deployments deployments_disabled
    fixture_lifecycle command containers

  observed : ℕ → RuntimeExpectation → Option FixtureContainer → Observation
  observed now expectation none = record {
    deployment_id = expectation.deployment_id;
    generation = expectation.generation;
    container_id = none;
    state = missing;
    exit_code = none;
    health_status = unknown;
    health_latency_ms = none;
    checked_at = now;
    logs = [];
  }
  observed now expectation (some c) = record {
    deployment_id = c.deployment_id;
    generation = c.generation;
    container_id = some c.container_id;
    state = c.state;
    exit_code = some (pos 0);
    health_status = elim c.state [ running ↦ healthy | _ ↦ unknown ];
    health_latency_ms = elim c.state [ running ↦ some one | _ ↦ none ];
    checked_at = now;
    logs = c.logs;
  }

  unfoldable pub fixture_observe : ℕ → List RuntimeExpectation → Containers → List Observation
  unfolding observed current_of
  fixture_observe now [] containers = []
  fixture_observe now (expectation ∷ expectations) containers =
      observed now expectation
        (current_of expectation.deployment_id expectation.generation containers)
      ∷ fixture_observe now expectations containers
