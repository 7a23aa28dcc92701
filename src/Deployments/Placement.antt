-- ===== src/Deployments/Placement.antt =====
-- `_plan_gpus` with `_latest_gpu_metrics` and `_active_gpu_allocations`: which GPUs of its server
-- a new deployment takes.
pub mod Sound
use ai_infra_console.Prelude.{
  ℕ, ◌+◌, Text, text, text_eq, Bool, true, false, ◌&&◌, ◌||◌, not, Option, none, some, List, [],
  ◌∷◌, ltb, leb, ◌==◌, Result, ok, err, guard, found, ◌>>=◌, ◌>>◌, find, exists, select, sort_by,
  take, length, or_else, if◌then◌else◌,
}
use ai_infra_console.Db.{Db, seconds}
use ai_infra_console.Db.Deployments.{
  Gpu, GpuMetric, Float64, Deployment, DeploymentGpu, DeploymentStatus, SelectionMode, automatic,
  manual, DeploymentConfig,
}
use ai_infra_console.Deployments.Errors.{
  DeploymentError, gpu_unavailable, gpu_server_mismatch, insufficient_gpus,
}

-- `status in ALLOCATING_DEPLOYMENT_STATUSES`
abbrev pub is_allocating : DeploymentStatus → Bool
is_allocating DeploymentStatus.stopped = false
is_allocating DeploymentStatus.failed = false
is_allocating _ = true

abbrev pub gpu_key : Gpu → ℕ
gpu_key gpu = gpu.id

abbrev pub deployment_key : Deployment → ℕ
deployment_key deployment = deployment.id

-- ORDER BY timestamp DESC, id DESC
abbrev pub newer : GpuMetric → GpuMetric → Bool
newer a b = ltb b.timestamp a.timestamp || (a.timestamp == b.timestamp && ltb b.id a.id)

-- `_latest_gpu_metrics(...).get(gpu_id)`
unfoldable pub latest_gpu_metric : ℕ → List GpuMetric → Option GpuMetric
latest_gpu_metric gpu_id [] = none
latest_gpu_metric gpu_id (metric ∷ metrics) =
    let rest = latest_gpu_metric gpu_id metrics in
    if metric.gpu_id == gpu_id
    then elim rest [
      | none ↦ some metric
      | some other ↦ if newer other metric then some other else some metric
    ]
    else rest

-- The deployment of a link allocates its GPUs, and is not the one left out.
abbrev pub allocates : ℕ → Option ℕ → Deployment → Bool
allocates server none deployment = deployment.server_id == server && is_allocating deployment.status
allocates server (some excluded) deployment =
    deployment.server_id == server
    && is_allocating deployment.status
    && not (deployment.id == excluded)

abbrev pub links : ℕ → ℕ → Option ℕ → List Deployment → DeploymentGpu → Bool
links gpu_id server excluded deployments link =
    link.gpu_id == gpu_id && elim (find deployment_key link.deployment_id deployments) [
      | none ↦ false
      | some deployment ↦ allocates server excluded deployment
    ]

-- `gpu_id in await _active_gpu_allocations(session, server_id, exclude_deployment_id=excluded)`
unfoldable pub is_allocated : ℕ → ℕ → Option ℕ → Db → Bool
is_allocated gpu_id server excluded db =
    exists (links gpu_id server excluded db.deployments) db.deployment_gpus

-- `timestamp is not None and timestamp >= now - fresh_seconds`
pub is_fresh : ℕ → ℕ → Option GpuMetric → Bool
is_fresh fresh_seconds now none = false
is_fresh fresh_seconds now (some metric) = leb now (metric.timestamp + seconds fresh_seconds)

unfoldable pub is_selectable : ℕ → ℕ → ℕ → Db → Gpu → Bool
unfolding is_fresh
is_selectable fresh_seconds now server db gpu =
    not (is_allocated gpu.id server none db)
    && not (text_eq gpu.status (text "offline") || text_eq gpu.status (text "unavailable"))
    && is_fresh fresh_seconds now (latest_gpu_metric gpu.id db.gpu_metrics)

-- `metric.memory_used or 0`, and the whole memory where there is no metric
abbrev pub memory_used : Db → Gpu → ℕ
memory_used db gpu = elim (latest_gpu_metric gpu.id db.gpu_metrics) [
  | none ↦ gpu.memory_total
  | some metric ↦ or_else metric.memory_used 0
]

-- The bit pattern of the double 101.
abbrev pub no_utilization : Float64
no_utilization = 0x4059400000000000

abbrev pub utilization : Db → Gpu → Float64
utilization db gpu = elim (latest_gpu_metric gpu.id db.gpu_metrics) [
  | none ↦ no_utilization
  | some metric ↦ or_else metric.utilization no_utilization
]

-- The order of the sort key (-(memory_total - memory_used), utilization, gpu_index), on the three
-- numbers of each GPU. `a_total - a_used > b_total - b_used` is written without subtraction, as a
-- GPU may report more memory used than it has.
unfoldable pub key_precedes : ℕ → ℕ → ℕ → ℕ → ℕ → ℕ → ℕ → ℕ → Bool
key_precedes a_total a_used a_utilization a_index b_total b_used b_utilization b_index =
    ltb (b_total + a_used) (a_total + b_used)
    || ((b_total + a_used == a_total + b_used)
        && (ltb a_utilization b_utilization
            || (a_utilization == b_utilization && ltb a_index b_index)))

unfoldable pub precedes : Db → Gpu → Gpu → Bool
unfolding key_precedes
precedes db a b =
    key_precedes a.memory_total (memory_used db a) (utilization db a) a.gpu_index b.memory_total
      (memory_used db b) (utilization db b) b.gpu_index

-- SELECT ... WHERE server_id ORDER BY gpu_index
abbrev pub server_gpus : ℕ → Db → List Gpu
server_gpus server db =
    sort_by (λ a b. ltb a.gpu_index b.gpu_index) (select (λ gpu. gpu.server_id == server) db.gpus)

-- The loop over the GPUs that the request names.
unfoldable pub pick_gpus : (Gpu → Bool) → List Gpu → List ℕ → Result DeploymentError (List Gpu)
pick_gpus selectable gpus [] = ok []
pick_gpus selectable gpus (gpu_id ∷ gpu_ids) = do
  gpu ← found (find gpu_key gpu_id gpus) gpu_server_mismatch
  guard (selectable gpu) gpu_unavailable
  selected ← pick_gpus selectable gpus gpu_ids
  ok (gpu ∷ selected)

pub record DeploymentCreateRequest : Type 0 where
  pub name : Text
  pub model_file_id : ℕ
  pub selection_mode : SelectionMode
  pub gpu_ids : List ℕ
  pub port : ℕ
  pub config : DeploymentConfig

abbrev pub is_empty : {A : Type 0} → List A → Bool
is_empty [] = true
is_empty (x ∷ xs) = false

abbrev pub candidates : ℕ → ℕ → ℕ → Db → List Gpu
candidates fresh_seconds now server db =
    sort_by (precedes db)
      (select (is_selectable fresh_seconds now server db) (server_gpus server db))

choose_gpus :
    SelectionMode → ℕ → ℕ → ℕ → DeploymentCreateRequest → Db → Result DeploymentError (List Gpu)
choose_gpus manual fresh_seconds now server request db =
    pick_gpus (is_selectable fresh_seconds now server db) (server_gpus server db) request.gpu_ids
choose_gpus automatic fresh_seconds now server request db = do
  guard (leb request.config.tensor_parallel_size (length (candidates fresh_seconds now server db)))
      insufficient_gpus
  ok (take request.config.tensor_parallel_size (candidates fresh_seconds now server db))

unfoldable pub plan_gpus :
    ℕ → ℕ → ℕ → DeploymentCreateRequest → Db → Result DeploymentError (List Gpu)
unfolding choose_gpus
plan_gpus fresh_seconds now server request db = do
  guard (not (is_empty (server_gpus server db))) gpu_unavailable
  choose_gpus request.selection_mode fresh_seconds now server request db
