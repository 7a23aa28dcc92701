-- ===== src/Db.antt =====
-- apps/api/src/ai_infra_api/db/models.py: the tables that the model and deployment services read
-- and write. A table is the list of its rows, an id (a UUID) is a number, an instant (an aware
-- `datetime`, in UTC) is its number of microseconds.
pub mod Inventory
pub mod Tasks
pub mod Deployments
use ai_infra_console.Prelude.{ℕ, ◌*◌, List, []}
use Inventory.{Server, ServerAgent, ServerModelDirectory, Model, ModelFile}
use Tasks.{ModelDownloadTask, ModelDeleteTask}
use Deployments.{
  Gpu, GpuMetric, ServerMetric, Deployment, DeploymentOperation, DeploymentGpu, DeploymentLog,
}

-- `timedelta(seconds=n)`
abbrev pub seconds : ℕ → ℕ
seconds n = n * 1_000_000

pub record Db : Type 0 where
  pub servers : List Server
  pub server_agents : List ServerAgent
  pub directories : List ServerModelDirectory
  pub models : List Model
  pub model_files : List ModelFile
  pub downloads : List ModelDownloadTask
  pub deletions : List ModelDeleteTask
  pub gpus : List Gpu
  pub gpu_metrics : List GpuMetric
  pub server_metrics : List ServerMetric
  pub deployments : List Deployment
  pub operations : List DeploymentOperation
  pub deployment_gpus : List DeploymentGpu
  pub deployment_logs : List DeploymentLog

abbrev pub empty_db : Db
empty_db = record {
  servers = [];
  server_agents = [];
  directories = [];
  models = [];
  model_files = [];
  downloads = [];
  deletions = [];
  gpus = [];
  gpu_metrics = [];
  server_metrics = [];
  deployments = [];
  operations = [];
  deployment_gpus = [];
  deployment_logs = [];
}
