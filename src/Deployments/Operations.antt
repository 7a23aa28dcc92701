-- ===== src/Deployments/Operations.antt =====
-- `claim_deployment_operation`: the agent of a server takes the next operation that waits.
-- `digest` is sha256, `lease_token` is what `secrets.token_urlsafe` returns, `image` is
-- the vLLM image of the settings.
pub mod Exclusion
pub mod Outcomes
pub mod Authority
use ai_infra_console.Prelude.{
  ℕ, ◌+◌, Text, text, Bool, true, false, ◌&&◌, ◌||◌, Option, none, some, List, [], ◌∷◌, ltb, ◌==◌,
  or_else, is_some, Result, ok, err, guard, found, ◌>>=◌, ◌>>◌, find, put, exists, select,
  if◌then◌else◌,
}
use ai_infra_console.Strings.{safe_text}
use ai_infra_console.Db.{Db, seconds}
use ai_infra_console.Db.Deployments.{
  Deployment, DeploymentStatus, DesiredState, Health, Action, create, start, stop, restart, delete,
  OperationStatus, DeploymentOperation,
}
use ai_infra_console.ModelTasks.Leases.{unexpired, lapsed, matches_digest}
use ai_infra_console.Deployments.Commands.{DeploymentCommand, command_for}
use ai_infra_console.Deployments.Errors.{
  DeploymentError, model_file_not_found, stale_deployment_generation, invalid_deployment_lease,
  expired_deployment_lease, deployment_operation_not_found, deployment_operation_not_active,
  deployment_not_found, deployment_state_mismatch,
}
use ai_infra_console.Deployments.Placement.{deployment_key}

abbrev pub operation_key : DeploymentOperation → ℕ
operation_key operation = operation.id

abbrev pub is_operating : OperationStatus → Bool
is_operating OperationStatus.running = true
is_operating _ = false

abbrev pub is_waiting : OperationStatus → Bool
is_waiting OperationStatus.queued = true
is_waiting _ = false

-- The queries for a live lease and for an operation that waits.
abbrev pub holds_operation : ℕ → ℕ → DeploymentOperation → Bool
holds_operation server now o =
    o.server_id == server && is_operating o.status && unexpired o.lease_expires_at now

abbrev pub waits_operation : ℕ → ℕ → DeploymentOperation → Bool
waits_operation server now o =
    o.server_id == server
    && (is_waiting o.status || (is_operating o.status && lapsed o.lease_expires_at now))

-- ORDER BY created_at, id
abbrev pub earlier : DeploymentOperation → DeploymentOperation → Bool
earlier a b = ltb a.created_at b.created_at || (a.created_at == b.created_at && ltb a.id b.id)

unfoldable pub next_operation :
    (DeploymentOperation → Bool) → List DeploymentOperation → Option DeploymentOperation
next_operation test [] = none
next_operation test (o ∷ os) =
    let rest = next_operation test os in
    if test o
    then elim rest [ none ↦ some o | some p ↦ if earlier p o then some p else some o ]
    else rest

-- `ACTION_TRANSITION_STATUS`
abbrev pub transition_status : Action → DeploymentStatus
transition_status create = DeploymentStatus.starting
transition_status start = DeploymentStatus.starting
transition_status stop = DeploymentStatus.stopping
transition_status restart = DeploymentStatus.restarting
transition_status delete = DeploymentStatus.deleting

unfoldable pub fail_operation : ℕ → Text → Text → DeploymentOperation → DeploymentOperation
fail_operation now code message o = record o {
  status = OperationStatus.failed;
  error_code = some code;
  error_message = some message;
  completed_at = some now;
}

unfoldable pub fail_missing : ℕ → DeploymentOperation → DeploymentOperation
unfolding fail_operation
fail_missing now o =
    fail_operation now (text "deployment_missing") (text "The deployment no longer exists.") o

unfoldable pub fail_stale : ℕ → DeploymentOperation → DeploymentOperation
unfolding fail_operation
fail_stale now o =
    fail_operation now (text "stale_deployment_generation")
      (text "The operation belongs to an older deployment generation.") o

-- `deployment is None or deployment.server_id != server_id`
abbrev pub deployment_of : ℕ → DeploymentOperation → Db → Option Deployment
deployment_of server o db = elim (find deployment_key o.deployment_id db.deployments) [
  | none ↦ none
  | some deployment ↦ if deployment.server_id == server then some deployment else none
]

module _ (digest : Text → Text) (lease_seconds : ℕ) (lease_token image : Text) where
  unfoldable pub lease_operation : ℕ → DeploymentOperation → DeploymentOperation
  lease_operation now o = record o {
    status = OperationStatus.running;
    attempt_count = o.attempt_count + 1;
    lease_token_hash = some (digest lease_token);
    lease_expires_at = some (now + seconds lease_seconds);
    started_at = some (or_else o.started_at now);
    completed_at = none;
  }

  -- `selected` becomes `running`, and its deployment the status of its action.
  unfoldable pub start_operation : ℕ → DeploymentOperation → Deployment → Db → Db
  unfolding lease_operation
  start_operation now o deployment db = record db {
    operations = put operation_key (lease_operation now o) db.operations;
    deployments =
        put deployment_key
          (record deployment {
            status = transition_status o.action;
            health_status = Health.unknown;
          })
          db.deployments;
  }

  unfoldable pub run_operation :
      ℕ
      → ℕ
      → DeploymentOperation
      → Option Deployment
      → Db
      → Result DeploymentError (Option DeploymentCommand × Db)
  unfolding start_operation
  run_operation server now o none db =
      ok (none, record db { operations = put operation_key (fail_missing now o) db.operations })
  run_operation server now o (some deployment) db =
      let started : Result DeploymentError (Option DeploymentCommand × Db) = do
        command ← command_for image lease_token o deployment (start_operation now o deployment db)
        ok (some command, start_operation now o deployment db)
      in if o.generation == deployment.generation
        then started
        else ok
            (none, record db { operations = put operation_key (fail_stale now o) db.operations })

  unfoldable pub claim_deployment_operation :
      ℕ → ℕ → Db → Result DeploymentError (Option DeploymentCommand × Db)
  claim_deployment_operation server now db =
      if exists (holds_operation server now) db.operations
      then ok (none, db)
      else elim (next_operation (waits_operation server now) db.operations) [
        | none ↦ ok (none, db)
        | some o ↦ run_operation server now o (deployment_of server o db) db
      ]
