-- ===== src/Scenario/Machines.antt =====
-- A server with two GPUs, an installed model, and a request to deploy it.
use ai_infra_console.Prelude.{text, true, false, none, some, [], ◌∷◌}
use ai_infra_console.Json.{bool, obj, end, field}
use ai_infra_console.Db.{Db}
use ai_infra_console.Db.Inventory.{ModelFile}
use ai_infra_console.Db.Deployments.{
  Gpu, GpuMetric, ServerMetric, DeploymentConfig, SelectionMode, DeploymentStatus, DesiredState,
  Health, Deployment, DeploymentOperation, OperationStatus, Action,
}
use ai_infra_console.Deployments.Placement.{DeploymentCreateRequest}
use ai_infra_console.Scenario.{fresh_db}

abbrev pub gpu_0 : Gpu
gpu_0 = record {
  id = 40;
  server_id = 1;
  gpu_index = 0;
  uuid = text "GPU-0";
  name = text "A100";
  memory_total = 80_000;
  status = text "available";
}

abbrev pub gpu_1 : Gpu
gpu_1 = record gpu_0 { id = 41; gpu_index = 1; uuid = text "GPU-1" }

abbrev pub metric_0 : GpuMetric
metric_0 = record {
  id = 50;
  gpu_id = 40;
  timestamp = 1_000_000;
  utilization = some 0;
  memory_used = some 30_000;
}

-- The second GPU has more free memory.
abbrev pub metric_1 : GpuMetric
metric_1 = record metric_0 { id = 51; gpu_id = 41; memory_used = some 10_000 }

abbrev pub qwen_file : ModelFile
qwen_file = record {
  id = 30;
  model_id = 20;
  server_id = 1;
  directory_id = some 3;
  path = text "/models/huggingface/Qwen/Qwen3-8B";
  format = some (text "safetensors");
  revision = some (text "main");
  status = text "discovered";
}

abbrev pub ready_db : Db
ready_db = record fresh_db {
  models =
      record {
        id = 20;
        source = text "huggingface";
        source_id = text "Qwen/Qwen3-8B";
        name = text "Qwen/Qwen3-8B";
        display_name = none;
      }
      ∷ [];
  model_files = qwen_file ∷ [];
  gpus = gpu_0 ∷ gpu_1 ∷ [];
  gpu_metrics = metric_0 ∷ metric_1 ∷ [];
}

abbrev pub config : DeploymentConfig
config = record {
  tensor_parallel_size = 1;
  gpu_memory_utilization = 0x3FECCCCCCCCCCCCD;
  max_model_length = 8_192;
  data_type = text "auto";
  trust_remote_code = false;
  extra_arguments = text "--enforce-eager" ∷ [];
}

abbrev pub automatic_request : DeploymentCreateRequest
automatic_request = record {
  name = text "chat";
  model_file_id = 30;
  selection_mode = SelectionMode.automatic;
  gpu_ids = [];
  port = 8_100;
  config = config;
}

abbrev pub manual_request : DeploymentCreateRequest
manual_request = record automatic_request {
  selection_mode = SelectionMode.manual;
  gpu_ids = 40 ∷ [];
}

-- A deployment that runs, and the operation that stops it.
abbrev pub chat : Deployment
chat = record {
  id = 60;
  name = text "chat";
  model_file_id = 30;
  server_id = 1;
  requested_by_user_id = some 7;
  backend = text "vllm";
  selection_mode = SelectionMode.automatic;
  desired_state = DesiredState.stopped;
  status = DeploymentStatus.running;
  generation = 2;
  port = 8_100;
  endpoint = none;
  container_id = some (text "c0ffee");
  config = config;
  health_status = Health.healthy;
  health_latency_ms = none;
  last_health_checked_at = none;
  last_reconciled_at = none;
  error_code = none;
  error_message = none;
  started_at = some 100;
  stopped_at = none;
  created_at = 90;
}

abbrev pub stopping : DeploymentOperation
stopping = record {
  id = 70;
  deployment_id = 60;
  server_id = 1;
  requested_by_user_id = some 7;
  action = Action.stop;
  status = OperationStatus.queued;
  generation = 2;
  attempt_count = 0;
  lease_token_hash = none;
  lease_expires_at = none;
  request_id = none;
  error_code = none;
  error_message = none;
  started_at = none;
  completed_at = none;
  created_at = 200;
}

abbrev pub stopping_db : Db
stopping_db = record ready_db { deployments = chat ∷ []; operations = stopping ∷ [] }

-- The same server with what its agent last said of Docker.
abbrev pub docker_metric : ServerMetric
docker_metric = record {
  id = 80;
  server_id = 1;
  runtime_info = obj (
      field (text "runtimes")
        (obj (
          field (text "docker") (obj (field (text "available") (bool true) end))
            (field (text "deployment_enabled") (bool true) end)))
        end);
}

abbrev pub docker_db : Db
docker_db = record ready_db { server_metrics = docker_metric ∷ [] }
