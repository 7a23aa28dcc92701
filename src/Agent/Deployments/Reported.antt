-- ===== src/Agent/Deployments/Reported.antt =====
-- The central service takes the terminal report of a lifecycle command that the runtime executed.
use ai_infra_console.Prelude.{
  ℕ, Text, ◌≡◌, ◌≢◌, ◌⊎◌, inl, inr, refl, ◌∙◌, ap, subst, Bool, true, false, some, ok, arith, put,
}
use ai_infra_console.Db.{Db}
use ai_infra_console.Db.Deployments.{Action, Deployment, DeploymentOperation, Float64}
use ai_infra_console.Deployments.Commands.{DeploymentLifecycleCommand}
use ai_infra_console.Deployments.Operations.{is_operating, operation_key}
use ai_infra_console.Deployments.Placement.{deployment_key}
use ai_infra_console.Deployments.Reports.{
  TerminalRequest, Outcome, ObservedState, settle, complete_start, run_deployment, observed_running,
  complete_owned, deployment_at, verify_operation_lease, complete_deployment_operation,
  owned_operation, finish_operation,
}
use ai_infra_console.Agent.Runtime.{DeploymentExecutionResult}
use ai_infra_console.Agent.Runtime.Docker.{Docker, run_lifecycle}
use ai_infra_console.Agent.Runtime.Docker.Lifecycle.{
  settled, state_of, IsDaemon, Reaches, run_lifecycle-Reaches,
}
use ai_infra_console.Agent.Deployments.{deployment_report, executed}

settled_running :
    (kind : Action) (before state : ObservedState)
    → (kind ≡ Action.create) ⊎ ((kind ≡ Action.start) ⊎ (kind ≡ Action.restart))
    → settled kind before ≡ some state
    → observed_running state ≡ true
settled_running Action.create before state k h = ground arith
settled_running Action.start before state k h = ground arith
settled_running Action.restart before state k h = ground arith
settled_running Action.stop before state k h = ground arith
settled_running Action.delete before state k h = ground arith

complete_start-running :
    (report : TerminalRequest) (now : ℕ) (deployment : Deployment) (db : Db)
    → observed_running report.observed_state ≡ true
    → complete_start report now deployment db
      ≡ ok (
        false,
        record db {
          deployments = put deployment_key (run_deployment report now deployment) db.deployments;
        },
      )
unfolding complete_start
complete_start-running report now deployment db h = rw h refl

-- What the state of an executed command must be for the service to settle it.
settled-IsTaken :
    (kind : Action) (before : ObservedState) (token : Text) (generation now : ℕ)
    (result : DeploymentExecutionResult) (finished : DeploymentOperation) (deployment : Deployment)
    (db : Db)
    → settled kind before ≡ some result.state
    → (after : Bool × Db) × (settle Outcome.completed kind
          (deployment_report token generation (executed result))
          now
          finished
          deployment
          db
        ≡ ok after)
unfolding settle complete_start deployment_report
settled-IsTaken Action.create before token generation now result finished deployment db h = (
  _,
  complete_start-running (deployment_report token generation (executed result)) now deployment db
      (settled_running Action.create before result.state (inl refl) h),
)
settled-IsTaken Action.start before token generation now result finished deployment db h = (
  _,
  complete_start-running (deployment_report token generation (executed result)) now deployment db
      (settled_running Action.start before result.state (inr (inl refl)) h),
)
settled-IsTaken Action.restart before token generation now result finished deployment db h = (
  _,
  complete_start-running (deployment_report token generation (executed result)) now deployment db
      (settled_running Action.restart before result.state (inr (inr refl)) h),
)
settled-IsTaken Action.stop before token generation now result finished deployment db h = (_, refl)
settled-IsTaken Action.delete before token generation now result finished deployment db h =
    (_, refl)

module _ {D : Type 0} (docker : Docker D) (show_id : ℕ → Text) (show_float : Float64 → Text) where
  executed-settled :
      (daemon : IsDaemon docker) (command : DeploymentLifecycleCommand) (d d' : D)
      (result : DeploymentExecutionResult)
      → command.kind ≢ Action.create
      → run_lifecycle docker show_id show_float command d ≡ (d', ok result)
      → settled command.kind (state_of (docker.get command.container_name d)) ≡ some result.state
  executed-settled daemon command d d' result k h =
      (subst
        (Reaches docker show_id show_float command.container_name command.kind
          (state_of (docker.get command.container_name d)))
        h (run_lifecycle-Reaches docker show_id show_float daemon command d k)).0

  -- When the Docker runtime has executed a lifecycle command, the central service takes the
  -- supervisor's report of it, if the operation is the server's, of the command's action and
  -- running under a lease that the token opens, and its deployment is in the command's generation.
  pub executed-IsAccepted :
      (daemon : IsDaemon docker) (digest : Text → Text) (command : DeploymentLifecycleCommand)
      (d d' : D) (result : DeploymentExecutionResult) (server now : ℕ) (o : DeploymentOperation)
      (deployment : Deployment) (db : Db)
      → command.kind ≢ Action.create
      → run_lifecycle docker show_id show_float command d ≡ (d', ok result)
      → owned_operation server command.operation_id db.operations ≡ some o
      → o.action ≡ command.kind
      → is_operating o.status ≡ true
      → verify_operation_lease o (digest command.lease_token) command.generation now ≡ ok tt
      → deployment_at o.deployment_id command.generation db.deployments ≡ some deployment
      → (after : ℕ × Bool × Db) × (complete_deployment_operation digest server command.operation_id
            (deployment_report command.lease_token command.generation (executed result))
            now
            db
          ≡ ok after)
  unfolding complete_deployment_operation complete_owned deployment_report
  executed-IsAccepted daemon digest command d d' result server now o deployment db k h owned same
        running lease there =
      let report = deployment_report command.lease_token command.generation (executed result) in
      let finished = finish_operation report now o in
      let db' : Db = record db { operations = put operation_key finished db.operations } in
      let (after, e) =
        settled-IsTaken command.kind (state_of (docker.get command.container_name d))
          command.lease_token command.generation now result finished deployment db'
          (executed-settled daemon command d d' result k h) in
      let taken : settle report.outcome o.action report now finished deployment db' ≡ ok after =
        ap (λ kind. settle report.outcome kind report now finished deployment db') same ∙ e in
      ((o.deployment_id, after.0, after.1), rw (owned, running, lease, there, taken) refl)
