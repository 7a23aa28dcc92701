-- ===== src/Deployments/Commands.antt =====
-- The commands that an agent is sent for an operation, and `container_name_for`.
use ai_infra_console.Prelude.{
  ℕ, zero, suc, ◌+◌, ◌/◌, ◌%◌, Text, text, List, [], ◌∷◌, ◌++◌, map, ltb, ◌==◌, ◌&&◌, Result, ok,
  found, ◌>>=◌, exists, select, sort_by, if◌then◌else◌,
}
use ai_infra_console.Db.{Db}
use ai_infra_console.Db.Deployments.{
  Gpu, Deployment, DeploymentConfig, Action, create, DeploymentOperation,
}
use ai_infra_console.ModelTasks.DeleteRequests.{installation}
use ai_infra_console.Deployments.Errors.{DeploymentError, model_file_not_found}

unfoldable pub hex_digit : ℕ → ℕ
hex_digit d = if ltb d 10 then 48 + d else 87 + d

-- The last `rounds` hexadecimal digits of a number, in front of `digits`.
unfoldable pub hex_from : ℕ → ℕ → Text → Text
unfolding hex_digit
hex_from zero n digits = digits
hex_from (suc rounds) n digits = hex_from rounds (n / 16) (hex_digit (n % 16) ∷ digits)

-- A UUID has 128 bits, and its `hex` 32 digits.
unfoldable pub container_name_for : ℕ → Text
unfolding text hex_from
container_name_for deployment_id = text "ai-infra-" ++ hex_from 32 deployment_id []

pub record DeploymentCreateCommand : Type 0 where
  pub operation_id : ℕ
  pub deployment_id : ℕ
  pub generation : ℕ
  pub lease_token : Text
  pub container_name : Text
  pub image : Text
  pub root_path : Text
  pub model_file_id : ℕ
  pub source : Text
  pub source_id : Text
  pub model_path : Text
  pub port : ℕ
  pub gpu_indexes : List ℕ
  pub gpu_uuids : List Text
  pub config : DeploymentConfig

pub record DeploymentLifecycleCommand : Type 0 where
  pub kind : Action
  pub operation_id : ℕ
  pub deployment_id : ℕ
  pub generation : ℕ
  pub lease_token : Text
  pub container_name : Text

pub data DeploymentCommand : Type 0 where
  lifecycle : DeploymentLifecycleCommand → DeploymentCommand
  creation : DeploymentCreateCommand → DeploymentCommand

-- SELECT gpus JOIN deployment_gpus WHERE deployment_id ORDER BY gpu_index
abbrev pub gpus_of : ℕ → Db → List Gpu
gpus_of deployment db =
    sort_by (λ a b. ltb a.gpu_index b.gpu_index)
      (select
        (λ gpu.
          exists (λ link. link.deployment_id == deployment && link.gpu_id == gpu.id)
            db.deployment_gpus)
        db.gpus)

-- A creation whose model is gone raises.
unfoldable pub command_for :
    Text → Text → DeploymentOperation → Deployment → Db → Result DeploymentError DeploymentCommand
command_for image lease_token o deployment db = elim o.action [
  | create ↦ do
    row ← found (installation deployment.model_file_id db) model_file_not_found
    ok (
        creation (record {
          operation_id = o.id;
          deployment_id = deployment.id;
          generation = deployment.generation;
          lease_token = lease_token;
          container_name = container_name_for deployment.id;
          image = image;
          root_path = row.directory.path;
          model_file_id = row.file.id;
          source = row.model.source;
          source_id = row.model.source_id;
          model_path = row.file.path;
          port = deployment.port;
          gpu_indexes = map (λ gpu. gpu.gpu_index) (gpus_of deployment.id db);
          gpu_uuids = map (λ gpu. gpu.uuid) (gpus_of deployment.id db);
          config = deployment.config;
        }))
  | other ↦ ok (
      lifecycle (record {
        kind = other;
        operation_id = o.id;
        deployment_id = deployment.id;
        generation = deployment.generation;
        lease_token = lease_token;
        container_name = container_name_for deployment.id;
      }))
]
