-- ===== src/Deployments/Reports.antt =====
-- The reports of an agent on an operation that it claimed: `_verify_operation_lease`,
-- `renew_deployment_operation` and `complete_deployment_operation`.
use ai_infra_console.Prelude.{
  ℕ, ◌+◌, Text, text, Bool, true, false, Option, none, some, List, ◌==◌, Result, ok, guard, found,
  ◌>>=◌, ◌>>◌, find, put, select, not, if◌then◌else◌,
}
use ai_infra_console.Strings.{safe_text}
use ai_infra_console.Db.{Db, seconds}
use ai_infra_console.Db.Deployments.{
  Deployment, DeploymentStatus, DesiredState, Health, Action, create, start, stop, restart, delete,
  OperationStatus, DeploymentOperation,
}
use ai_infra_console.ModelTasks.Leases.{unexpired, matches_digest}
use ai_infra_console.Deployments.Errors.{
  DeploymentError, stale_deployment_generation, invalid_deployment_lease, expired_deployment_lease,
  deployment_operation_not_found, deployment_operation_not_active, deployment_not_found,
  deployment_state_mismatch,
}
use ai_infra_console.Deployments.Placement.{deployment_key}
use ai_infra_console.Deployments.Operations.{operation_key, is_operating}

unfoldable pub verify_operation_lease :
    DeploymentOperation → Text → ℕ → ℕ → Result DeploymentError (Unit {0})
verify_operation_lease o digested generation now = do
  guard (o.generation == generation) stale_deployment_generation
  guard (matches_digest o.lease_token_hash digested) invalid_deployment_lease
  guard (unexpired o.lease_expires_at now) expired_deployment_lease

abbrev pub owned_operation : ℕ → ℕ → List DeploymentOperation → Option DeploymentOperation
owned_operation server id operations = elim (find operation_key id operations) [
  | none ↦ none
  | some o ↦ if o.server_id == server then some o else none
]

pub data Outcome : Type 0 where
  completed failed : Outcome

abbrev pub outcome_status : Outcome → OperationStatus
outcome_status completed = OperationStatus.completed
outcome_status failed = OperationStatus.failed

pub data ObservedState : Type 0 where
  running stopped missing failed : ObservedState

pub record TerminalRequest : Type 0 where
  pub lease_token : Text
  pub generation : ℕ
  pub outcome : Outcome
  pub observed_state : ObservedState
  pub container_id : Option Text
  pub error_code : Option Text
  pub error_message : Option Text

abbrev pub observed_running : ObservedState → Bool
observed_running ObservedState.running = true
observed_running _ = false

abbrev pub health_after : ObservedState → Health
health_after ObservedState.failed = Health.unhealthy
health_after _ = Health.unknown

abbrev pub or_text : Option Text → Text → Option Text
or_text none other = some other
or_text (some t) other = some t

-- The row that a terminal report writes.
unfoldable pub finish_operation : TerminalRequest → ℕ → DeploymentOperation → DeploymentOperation
finish_operation report now o = record o {
  status = outcome_status report.outcome;
  completed_at = some now;
  error_code = safe_text 64 report.error_code;
  error_message = safe_text 1_024 report.error_message;
  lease_token_hash = none;
  lease_expires_at = none;
}

-- DELETE FROM deployments WHERE id; its operations go with it (ON DELETE CASCADE), and so do its
-- GPUs and logs.
unfoldable pub delete_deployment : ℕ → Db → Db
delete_deployment id db = record db {
  deployments = select (λ deployment. not (deployment.id == id)) db.deployments;
  operations = select (λ operation. not (operation.deployment_id == id)) db.operations;
  deployment_gpus = select (λ link. not (link.deployment_id == id)) db.deployment_gpus;
  deployment_logs = select (λ entry. not (entry.deployment_id == id)) db.deployment_logs;
}

-- The deployment after an operation that failed.
unfoldable pub fail_deployment : TerminalRequest → DeploymentOperation → Deployment → Deployment
fail_deployment report finished deployment = record deployment {
  status = DeploymentStatus.failed;
  health_status = health_after report.observed_state;
  error_code = or_text finished.error_code (text "deployment_operation_failed");
  error_message = or_text finished.error_message (text "The Agent deployment operation failed.");
}

unfoldable pub stop_deployment : ℕ → Deployment → Deployment
stop_deployment now deployment = record deployment {
  status = DeploymentStatus.stopped;
  health_status = Health.unknown;
  stopped_at = some now;
  last_reconciled_at = some now;
}

unfoldable pub run_deployment : TerminalRequest → ℕ → Deployment → Deployment
run_deployment report now deployment = record deployment {
  status = DeploymentStatus.running;
  desired_state = DesiredState.running;
  health_status = Health.unknown;
  container_id = safe_text 128 report.container_id;
  started_at = some now;
  stopped_at = none;
  last_reconciled_at = some now;
  error_code = none;
  error_message = none;
}

-- A successful start, restart or creation must report a running container.
unfoldable pub complete_start :
    TerminalRequest → ℕ → Deployment → Db → Result DeploymentError (Bool × Db)
unfolding run_deployment
complete_start report now deployment db = do
  guard (observed_running report.observed_state) deployment_state_mismatch
  ok (
    false,
    record db {
      deployments = put deployment_key (run_deployment report now deployment) db.deployments;
    },
  )

-- The effect of a finished operation on its deployment, and whether that was deleted.
unfoldable pub settle :
    Outcome
    → Action
    → TerminalRequest
    → ℕ
    → DeploymentOperation
    → Deployment
    → Db
    → Result DeploymentError (Bool × Db)
unfolding fail_deployment stop_deployment complete_start delete_deployment
settle failed action report now finished deployment db = ok (
  false,
  record db {
    deployments = put deployment_key (fail_deployment report finished deployment) db.deployments;
  },
)
settle completed delete report now finished deployment db =
    ok (true, delete_deployment deployment.id db)
settle completed stop report now finished deployment db = ok (
  false,
  record db { deployments = put deployment_key (stop_deployment now deployment) db.deployments },
)
settle completed create report now finished deployment db = complete_start report now deployment db
settle completed start report now finished deployment db = complete_start report now deployment db
settle completed restart report now finished deployment db = complete_start report now deployment db

-- `deployment is None or deployment.generation != report.generation`
abbrev pub deployment_at : ℕ → ℕ → List Deployment → Option Deployment
deployment_at id generation deployments = elim (find deployment_key id deployments) [
  | none ↦ none
  | some deployment ↦ if deployment.generation == generation then some deployment else none
]

module _ (digest : Text → Text) where
  unfoldable pub renew_deployment_operation :
      ℕ → ℕ → ℕ → Text → ℕ → ℕ → Db → Result DeploymentError (ℕ × Db)
  renew_deployment_operation lease_seconds server id lease_token generation now db = do
    o ← found (owned_operation server id db.operations) deployment_operation_not_found
    guard (is_operating o.status) deployment_operation_not_active
    verify_operation_lease o (digest lease_token) generation now
    let expiry : ℕ = now + seconds lease_seconds
    ok (
      expiry,
      record db {
        operations = put operation_key (record o { lease_expires_at = some expiry }) db.operations;
      },
    )

  -- The report on the operation `o`: the id of its deployment, whether that was deleted, and
  -- the database.
  unfoldable pub complete_owned :
      TerminalRequest → ℕ → DeploymentOperation → Db → Result DeploymentError (ℕ × Bool × Db)
  complete_owned report now o db = do
    guard (is_operating o.status) deployment_operation_not_active
    verify_operation_lease o (digest report.lease_token) report.generation now
    deployment ←
        found (deployment_at o.deployment_id report.generation db.deployments) deployment_not_found
    settled ←
        settle report.outcome o.action report now (finish_operation report now o) deployment
          (record db {
            operations = put operation_key (finish_operation report now o) db.operations;
          })
    ok (o.deployment_id, settled.0, settled.1)

  unfoldable pub complete_deployment_operation :
      ℕ → ℕ → TerminalRequest → ℕ → Db → Result DeploymentError (ℕ × Bool × Db)
  unfolding complete_owned
  complete_deployment_operation server id report now db = do
    o ← found (owned_operation server id db.operations) deployment_operation_not_found
    complete_owned report now o db
