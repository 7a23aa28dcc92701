-- ===== src/Deployments/Creation.antt =====
-- `create_deployment`: a new deployment reserves its name, its port and its GPUs, and queues its
-- first operation.
pub mod Reserved
use ai_infra_console.Prelude.{
  ℕ, Text, text, text_eq, Bool, true, false, ◌&&◌, ◌||◌, not, Option, none, some, List, [], ◌∷◌,
  ◌++◌, map, ◌==◌, Result, ok, guard, found, ◌>>=◌, ◌>>◌, exists,
}
use ai_infra_console.Db.{Db}
use ai_infra_console.Db.Deployments.{
  Deployment, DeploymentStatus, DesiredState, Health, Action, OperationStatus, DeploymentOperation,
  DeploymentGpu, Gpu,
}
use ai_infra_console.ModelTasks.DeleteRequests.{Installation, installation, deletes}
use ai_infra_console.Deployments.Errors.{
  DeploymentError, model_file_not_found, model_file_unavailable, unsupported_model_format,
  model_directory_unavailable, model_deletion_active, deployment_name_conflict,
  deployment_port_conflict,
}
use ai_infra_console.Deployments.Arguments.{validate_extra_arguments}
use ai_infra_console.Deployments.Placement.{DeploymentCreateRequest, plan_gpus}
use ai_infra_console.Deployments.Eligibility.{eligible_server, endpoint}

-- `format in SUPPORTED_MODEL_FORMATS`
unfoldable pub is_supported : Option Text → Bool
unfolding text
is_supported none = false
is_supported (some format) = text_eq format (text "safetensors") || text_eq format (text "pytorch")

abbrev pub has_name : Text → Deployment → Bool
has_name name deployment = text_eq deployment.name name

abbrev pub has_port : ℕ → ℕ → Deployment → Bool
has_port server port deployment = deployment.server_id == server && deployment.port == port

-- An operation as it is queued, with no attempt made.
abbrev pub queued_operation : ℕ → ℕ → Action → Option Text → ℕ → Deployment → DeploymentOperation
queued_operation id user action request_id created_at deployment = record {
  id = id;
  deployment_id = deployment.id;
  server_id = deployment.server_id;
  requested_by_user_id = some user;
  action = action;
  status = OperationStatus.queued;
  generation = deployment.generation;
  attempt_count = 0;
  lease_token_hash = none;
  lease_expires_at = none;
  request_id = request_id;
  error_code = none;
  error_message = none;
  started_at = none;
  completed_at = none;
  created_at = created_at;
}

-- The row of the new deployment, for an installation on `server_id`.
unfoldable pub new_deployment : DeploymentCreateRequest → ℕ → ℕ → ℕ → ℕ → Text → ℕ → Deployment
unfolding text
new_deployment request user id now file url server = record {
  id = id;
  name = request.name;
  model_file_id = file;
  server_id = server;
  requested_by_user_id = some user;
  backend = text "vllm";
  selection_mode = request.selection_mode;
  desired_state = DesiredState.running;
  status = DeploymentStatus.queued;
  generation = 1;
  port = request.port;
  endpoint = some url;
  container_id = none;
  config = request.config;
  health_status = Health.unknown;
  health_latency_ms = none;
  last_health_checked_at = none;
  last_reconciled_at = none;
  error_code = none;
  error_message = none;
  started_at = none;
  stopped_at = none;
  created_at = now;
}

-- The checks on the installation of the model.
unfoldable pub usable_installation : Installation → Db → Result DeploymentError (Unit {0})
usable_installation row db = do
  guard (text_eq row.file.status (text "discovered")) model_file_unavailable
  guard (is_supported row.file.format) unsupported_model_format
  guard (row.directory.is_allowed && row.directory.is_available) model_directory_unavailable
  guard (not (exists (deletes row.file.id) db.deletions)) model_deletion_active

module _ (is_ipv6 : Text → Bool) (names : List Text) (fresh_seconds : ℕ) where
  -- `id` and `operation_id` are fresh, `now` is the clock and the database's `now()`
  unfoldable pub create_deployment :
      DeploymentCreateRequest
      → ℕ
      → Option Text
      → ℕ
      → ℕ
      → ℕ
      → Db
      → Result DeploymentError (Deployment × DeploymentOperation × Db)
  unfolding usable_installation
  create_deployment request user request_id id operation_id now db = do
    arguments ← validate_extra_arguments request.config.extra_arguments
    row ← found (installation request.model_file_id db) model_file_not_found
    usable_installation row db
    server ← eligible_server names row.file.server_id db
    guard (not (exists (has_name request.name) db.deployments)) deployment_name_conflict
    guard (not (exists (has_port server.id request.port) db.deployments)) deployment_port_conflict
    selected ← plan_gpus fresh_seconds now server.id request db
    let deployment =
        new_deployment request user id now row.file.id (endpoint is_ipv6 server request.port)
          server.id
    let operation = queued_operation operation_id user Action.create request_id now deployment
    ok (
      deployment,
      operation,
      record db {
        deployments = db.deployments ++ deployment ∷ [];
        operations = db.operations ++ operation ∷ [];
        deployment_gpus =
            db.deployment_gpus
            ++ map (λ gpu. record { deployment_id = id; gpu_id = gpu.id }) selected;
      },
    )
