-- ===== src/Deployments/Actions.antt =====
-- Requests on a deployment that exists: `queue_deployment_action`, `retry_deployment`,
-- `validate_deployment_action_target`, and the handlers of api/deployments.py that call them.
pub mod Queued
use ai_infra_console.Prelude.{
  ℕ, Text, text_eq, Bool, true, false, ◌&&◌, ◌||◌, not, Option, none, some, List, [], ◌∷◌, ◌++◌,
  ltb, ◌==◌, Result, ok, err, guard, found, ◌>>=◌, ◌>>◌, find, put, exists, select, map,
  if◌then◌else◌,
}
use ai_infra_console.Db.{Db}
use ai_infra_console.Db.Deployments.{
  Deployment, DeploymentStatus, DesiredState, Action, create, start, stop, restart, delete,
  OperationStatus, DeploymentOperation, DeploymentGpu,
}
use ai_infra_console.Deployments.Errors.{
  DeploymentError, invalid_deployment_action, deployment_operation_conflict, deployment_not_running,
  deployment_gpu_conflict, deployment_not_retryable, deployment_not_found,
}
use ai_infra_console.Deployments.Placement.{deployment_key, is_allocated}
use ai_infra_console.Deployments.Eligibility.{eligible_server}
use ai_infra_console.Deployments.Creation.{queued_operation}

-- `status in ACTIVE_OPERATION_STATUSES`
abbrev pub is_active : OperationStatus → Bool
is_active OperationStatus.queued = true
is_active OperationStatus.running = true
is_active _ = false

-- ORDER BY created_at DESC, id DESC
abbrev pub later_operation : DeploymentOperation → DeploymentOperation → Bool
later_operation a b =
    ltb b.created_at a.created_at || (a.created_at == b.created_at && ltb b.id a.id)

-- SELECT ... WHERE test ORDER BY created_at DESC, id DESC LIMIT 1
unfoldable pub latest_operation :
    (DeploymentOperation → Bool) → List DeploymentOperation → Option DeploymentOperation
latest_operation test [] = none
latest_operation test (operation ∷ operations) =
    let rest = latest_operation test operations in
    if test operation
    then elim rest [
      | none ↦ some operation
      | some other ↦ if later_operation other operation then some other else some operation
    ]
    else rest

abbrev pub of_deployment : ℕ → DeploymentOperation → Bool
of_deployment id operation = operation.deployment_id == id

abbrev pub is_active_of : ℕ → DeploymentOperation → Bool
is_active_of id operation = operation.deployment_id == id && is_active operation.status

-- `_current_operation`
abbrev pub current_operation : ℕ → Db → Option DeploymentOperation
current_operation id db = latest_operation (of_deployment id) db.operations

-- The query for an active operation orders by created_at alone; of those of one instant the model
-- takes the one with the largest id.
abbrev pub active_operation : ℕ → Db → Option DeploymentOperation
active_operation id db = latest_operation (is_active_of id) db.operations

abbrev pub is_lifecycle : Action → Bool
is_lifecycle create = false
is_lifecycle _ = true

abbrev pub same_action : Action → Action → Bool
same_action create create = true
same_action start start = true
same_action stop stop = true
same_action restart restart = true
same_action delete delete = true
same_action _ _ = false

-- The action asks for what the deployment does, or is about to do.
abbrev pub is_satisfied : Action → DeploymentStatus → Bool
is_satisfied start DeploymentStatus.running = true
is_satisfied start DeploymentStatus.starting = true
is_satisfied stop DeploymentStatus.stopped = true
is_satisfied stop DeploymentStatus.stopping = true
is_satisfied _ _ = false

abbrev pub is_running : DeploymentStatus → Bool
is_running DeploymentStatus.running = true
is_running _ = false

-- not (action == "restart" and status != "running")
abbrev pub may_restart : Action → DeploymentStatus → Bool
may_restart restart status = is_running status
may_restart _ status = true

abbrev pub desired_after : Action → DesiredState
desired_after create = DesiredState.running
desired_after start = DesiredState.running
desired_after stop = DesiredState.stopped
desired_after restart = DesiredState.running
desired_after delete = DesiredState.deleted

-- The writes of a new request, in the deployment and in the table of operations.
unfoldable pub enqueue :
    Action → ℕ → Option Text → ℕ → ℕ → Deployment → Db → DeploymentOperation × Db
enqueue action user request_id id now deployment db =
    let operation = queued_operation id user action request_id now deployment in
    (
      operation,
      record db {
        deployments =
            put deployment_key
              (record deployment {
                desired_state = desired_after action;
                error_code = none;
                error_message = none;
              })
              db.deployments;
        operations = db.operations ++ operation ∷ [];
      },
    )

-- What happens where no operation is active.
unfoldable pub queue_idle :
    Action
    → ℕ
    → Option Text
    → ℕ
    → ℕ
    → Deployment
    → Option DeploymentOperation
    → Db
    → Result DeploymentError (DeploymentOperation × Db)
queue_idle action user request_id id now deployment none db = do
  guard (may_restart action deployment.status) deployment_not_running
  ok (enqueue action user request_id id now deployment db)
queue_idle action user request_id id now deployment (some previous) db =
    let fresh : Result DeploymentError (DeploymentOperation × Db) = do
      guard (may_restart action deployment.status) deployment_not_running
      ok (enqueue action user request_id id now deployment db)
    in if is_satisfied action deployment.status then ok (previous, db) else fresh

-- `id` is fresh, `now` is the database's `now()`
unfoldable pub queue_deployment_action :
    Action
    → ℕ
    → Option Text
    → ℕ
    → ℕ
    → Deployment
    → Db
    → Result DeploymentError (DeploymentOperation × Db)
queue_deployment_action action user request_id id now deployment db = do
  guard (is_lifecycle action) invalid_deployment_action
  elim (active_operation deployment.id db) [
    | some active ↦
        if same_action active.action action
        then ok (active, db)
        else err deployment_operation_conflict
    | none ↦
        queue_idle action user request_id id now deployment (current_operation deployment.id db) db
  ]

abbrev pub is_failed : DeploymentStatus → Bool
is_failed DeploymentStatus.failed = true
is_failed _ = false

abbrev pub operation_failed : OperationStatus → Bool
operation_failed OperationStatus.failed = true
operation_failed _ = false

unfoldable pub retry_as :
    Action
    → ℕ
    → Option Text
    → ℕ
    → ℕ
    → Deployment
    → Db
    → Result DeploymentError (DeploymentOperation × Db)
retry_as create user request_id id now deployment db =
    let deployment' : Deployment = record deployment { status = DeploymentStatus.queued } in
    ok (enqueue create user request_id id now deployment' db)
retry_as action user request_id id now deployment db =
    queue_deployment_action action user request_id id now deployment db

unfoldable pub retry_deployment :
    ℕ → Option Text → ℕ → ℕ → Deployment → Db → Result DeploymentError (DeploymentOperation × Db)
retry_deployment user request_id id now deployment db = do
  guard (is_failed deployment.status) deployment_not_retryable
  previous ← found (current_operation deployment.id db) deployment_not_retryable
  guard (operation_failed previous.status) deployment_not_retryable
  retry_as previous.action user request_id id now deployment db

-- `selected & allocated` is not empty
unfoldable pub has_conflict : Deployment → List DeploymentGpu → Db → Bool
has_conflict deployment [] db = false
has_conflict deployment (link ∷ links) db =
    if link.deployment_id == deployment.id
      && is_allocated link.gpu_id deployment.server_id (some deployment.id) db
    then true
    else has_conflict deployment links db

-- `action in {"start", "restart"}`
abbrev pub needs_gpus : Action → Bool
needs_gpus start = true
needs_gpus restart = true
needs_gpus _ = false

unfoldable pub validate_deployment_action_target :
    List Text → Deployment → Action → Db → Result DeploymentError (Unit {0})
validate_deployment_action_target names deployment action db = do
  server ← eligible_server names deployment.server_id db
  guard (not (needs_gpus action && has_conflict deployment db.deployment_gpus db))
      deployment_gpu_conflict

-- `_queue_action`
unfoldable pub queue_action :
    List Text
    → ℕ
    → Action
    → ℕ
    → Option Text
    → ℕ
    → ℕ
    → Db
    → Result DeploymentError (DeploymentOperation × Db)
queue_action names deployment_id action user request_id id now db = do
  deployment ← found (find deployment_key deployment_id db.deployments) deployment_not_found
  validate_deployment_action_target names deployment action db
  queue_deployment_action action user request_id id now deployment db

-- `deployment_retry`
unfoldable pub deployment_retry :
    List Text → ℕ → ℕ → Option Text → ℕ → ℕ → Db → Result DeploymentError (DeploymentOperation × Db)
deployment_retry names deployment_id user request_id id now db = do
  deployment ← found (find deployment_key deployment_id db.deployments) deployment_not_found
  validate_deployment_action_target names deployment start db
  retry_deployment user request_id id now deployment db
