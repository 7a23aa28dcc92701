-- ===== src/Db/Deployments.antt =====
-- GPUs with their telemetry, and the deployments with their operations, placements and logs.
-- The statuses are the literals of apps/api/src/ai_infra_api/schemas/deployments.py.
use ai_infra_console.Prelude.{ℕ, Text, Bool, Option, List}
use ai_infra_console.Json.{Json}

-- A double that is carried or compared, as its bit pattern: those of two doubles that are not
-- negative are in the order of the doubles.
abbrev pub Float64 : Type 0
Float64 = ℕ

pub record Gpu : Type 0 where
  pub id : ℕ
  pub server_id : ℕ
  pub gpu_index : ℕ
  pub uuid : Text
  pub name : Text
  pub memory_total : ℕ
  pub status : Text

pub record GpuMetric : Type 0 where
  pub id : ℕ
  pub gpu_id : ℕ
  pub timestamp : ℕ
  pub utilization : Option Float64
  pub memory_used : Option ℕ

-- The last metric of a server.
pub record ServerMetric : Type 0 where
  pub id : ℕ
  pub server_id : ℕ
  pub runtime_info : Json

pub data SelectionMode : Type 0 where
  automatic manual : SelectionMode

pub data DeploymentStatus : Type 0 where
  queued starting running stopping stopped restarting deleting failed unknown : DeploymentStatus

pub data DesiredState : Type 0 where
  running stopped deleted : DesiredState

pub data Health : Type 0 where
  healthy degraded unhealthy unknown : Health

pub data Action : Type 0 where
  create start stop restart delete : Action

pub data OperationStatus : Type 0 where
  queued running completed failed : OperationStatus

pub record DeploymentConfig : Type 0 where
  pub tensor_parallel_size : ℕ
  pub gpu_memory_utilization : Float64
  pub max_model_length : ℕ
  pub data_type : Text
  pub trust_remote_code : Bool
  pub extra_arguments : List Text

pub record Deployment : Type 0 where
  pub id : ℕ
  pub name : Text
  pub model_file_id : ℕ
  pub server_id : ℕ
  pub requested_by_user_id : Option ℕ
  pub backend : Text
  pub selection_mode : SelectionMode
  pub desired_state : DesiredState
  pub status : DeploymentStatus
  pub generation : ℕ
  pub port : ℕ
  pub endpoint : Option Text
  pub container_id : Option Text
  pub config : DeploymentConfig
  pub health_status : Health
  pub health_latency_ms : Option Float64
  pub last_health_checked_at : Option ℕ
  pub last_reconciled_at : Option ℕ
  pub error_code : Option Text
  pub error_message : Option Text
  pub started_at : Option ℕ
  pub stopped_at : Option ℕ
  pub created_at : ℕ

pub record DeploymentOperation : Type 0 where
  pub id : ℕ
  pub deployment_id : ℕ
  pub server_id : ℕ
  pub requested_by_user_id : Option ℕ
  pub action : Action
  pub status : OperationStatus
  pub generation : ℕ
  pub attempt_count : ℕ
  pub lease_token_hash : Option Text
  pub lease_expires_at : Option ℕ
  pub request_id : Option Text
  pub error_code : Option Text
  pub error_message : Option Text
  pub started_at : Option ℕ
  pub completed_at : Option ℕ
  pub created_at : ℕ

pub record DeploymentGpu : Type 0 where
  pub deployment_id : ℕ
  pub gpu_id : ℕ

pub record DeploymentLog : Type 0 where
  pub id : ℕ
  pub deployment_id : ℕ
  pub sequence : ℕ
  pub timestamp : ℕ
  pub stream : Text
  pub message : Text
