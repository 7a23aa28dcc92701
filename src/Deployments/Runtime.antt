-- ===== src/Deployments/Runtime.antt =====
-- `apply_runtime_report` and `list_runtime_expectations`: what an agent observes of the containers
-- of its server, and what it is told to expect.
pub mod Observed
use ai_infra_console.Prelude.{
  ℕ, ◌+◌, Text, text, Bool, true, false, ◌&&◌, ◌||◌, not, Option, none, some, List, [], ◌∷◌, ◌++◌,
  ltb, ◌==◌, is_some, find, put, exists, select, sort_by, map, drop, if◌then◌else◌,
}
use ai_infra_console.Strings.{safe_text}
use ai_infra_console.Json.{ℤ, pos, negsuc}
use ai_infra_console.Db.{Db}
use ai_infra_console.Db.Deployments.{
  Deployment, DeploymentStatus, DesiredState, Health, Float64, DeploymentLog,
}
use ai_infra_console.Deployments.Placement.{deployment_key}
use ai_infra_console.Deployments.Eligibility.{decimal}
use ai_infra_console.Deployments.Actions.{is_active_of}
use ai_infra_console.Deployments.Commands.{container_name_for}
use ai_infra_console.Deployments.Reports.{ObservedState}

pub record LogReport : Type 0 where
  pub sequence : ℕ
  pub timestamp : ℕ
  pub stream : Text
  pub message : Text

pub record Observation : Type 0 where
  pub deployment_id : ℕ
  pub generation : ℕ
  pub container_id : Option Text
  pub state : ObservedState
  pub exit_code : Option ℤ
  pub health_status : Health
  pub health_latency_ms : Option Float64
  pub checked_at : ℕ
  pub logs : List LogReport

-- `mapped`
unfoldable pub mapped_status : ObservedState → DesiredState → DeploymentStatus
mapped_status ObservedState.running desired = DeploymentStatus.running
mapped_status ObservedState.stopped desired = DeploymentStatus.stopped
mapped_status ObservedState.missing DesiredState.running = DeploymentStatus.failed
mapped_status ObservedState.missing _ = DeploymentStatus.stopped
mapped_status ObservedState.failed desired = DeploymentStatus.failed

-- `f"{exit_code}"`
show_exit : ℤ → Text
show_exit (pos n) = decimal n
show_exit (negsuc n) = b'-' ∷ decimal (n + 1)

exit_message : Option ℤ → Text
unfolding show_exit
exit_message none = text "The managed container exited."
exit_message (some code) =
    text "The managed container exited with code " ++ (show_exit code ++ text ".")

-- The error that an observation writes, where it writes one.
unfoldable pub observed_error : Observation → Deployment → Deployment
unfolding exit_message
observed_error seen d = elim seen.state [
  | ObservedState.missing ↦ elim d.desired_state [
    | DesiredState.running ↦ record d {
      error_code = some (text "runtime_missing");
      error_message = some (text "The Agent cannot find the managed container.");
    }
    | other ↦ d
  ]
  | ObservedState.failed ↦ record d {
    error_code = some (text "runtime_exited");
    error_message = some (exit_message seen.exit_code);
  }
  | other ↦ d
]

-- The status follows the observation only where no operation is active.
unfoldable pub observe_status : Bool → Observation → Deployment → Deployment
unfolding mapped_status observed_error
observe_status true seen d = d
observe_status false seen d =
    observed_error seen (record d { status = mapped_status seen.state d.desired_state })

unfoldable pub observe : Bool → Observation → Deployment → Deployment
unfolding observe_status
observe active seen d = record (observe_status active seen d) {
  container_id = safe_text 128 seen.container_id;
  health_status = seen.health_status;
  health_latency_ms = seen.health_latency_ms;
  last_health_checked_at = some seen.checked_at;
  last_reconciled_at = some seen.checked_at;
}

abbrev pub is_logged : ℕ → ℕ → DeploymentLog → Bool
is_logged deployment sequence entry =
    entry.deployment_id == deployment && entry.sequence == sequence

pub record RuntimeExpectation : Type 0 where
  pub deployment_id : ℕ
  pub generation : ℕ
  pub container_name : Text
  pub port : ℕ
  pub desired_state : DesiredState

expects : ℕ → Deployment → Bool
expects server d =
    d.server_id == server && elim d.desired_state [ DesiredState.deleted ↦ false | _ ↦ true ]

-- In the order of ORDER BY created_at, id.
unfoldable pub list_runtime_expectations : ℕ → Db → List RuntimeExpectation
unfolding expects
list_runtime_expectations server db =
    map
      (λ d. record {
        deployment_id = d.id;
        generation = d.generation;
        container_name = container_name_for d.id;
        port = d.port;
        desired_state = d.desired_state;
      })
      (sort_by
        (λ a b. ltb a.created_at b.created_at || (a.created_at == b.created_at && ltb a.id b.id))
        (select (expects server) db.deployments))

-- `new_id deployment sequence` is the id that `uuid4` returns for a row, `retention` a setting
module _ (new_id : ℕ → ℕ → ℕ) (retention : ℕ) where
  -- One entry of an observation, and whether it was added.
  unfoldable pub add_log : ℕ → LogReport → List DeploymentLog → Bool × List DeploymentLog
  add_log deployment entry logs =
      if exists (is_logged deployment entry.sequence) logs
      then (false, logs)
      else elim (safe_text 4_096 (some entry.message)) [
        | none ↦ (false, logs)
        | some message ↦ (
          true,
          logs
              ++ record {
                id = new_id deployment entry.sequence;
                deployment_id = deployment;
                sequence = entry.sequence;
                timestamp = entry.timestamp;
                stream = entry.stream;
                message = message;
              }
                ∷ [],
        )
      ]

  unfoldable pub add_logs : ℕ → List LogReport → List DeploymentLog → Bool × List DeploymentLog
  add_logs deployment [] logs = (false, logs)
  add_logs deployment (entry ∷ entries) logs =
      let first_added = add_log deployment entry logs in
      let others = add_logs deployment entries first_added.1 in
      (first_added.0 || others.0, others.1)

  -- ORDER BY sequence DESC OFFSET retention
  unfoldable pub stale_logs : ℕ → List DeploymentLog → List DeploymentLog
  stale_logs deployment logs = drop retention (
      sort_by (λ a b. ltb b.sequence a.sequence)
        (select (λ entry. entry.deployment_id == deployment) logs))

  unfoldable pub prune_logs : ℕ → List DeploymentLog → List DeploymentLog
  unfolding stale_logs
  prune_logs deployment logs =
      select (λ entry. not (exists (λ stale. stale.id == entry.id) (stale_logs deployment logs)))
        logs

  -- Old entries go only where the observation had some.
  unfoldable pub kept_logs : ℕ → List LogReport → List DeploymentLog → List DeploymentLog
  unfolding prune_logs
  kept_logs deployment [] logs = logs
  kept_logs deployment (entry ∷ entries) logs = prune_logs deployment logs

  -- One observation: whether it changed its deployment, whether it added logs, and the database.
  unfoldable pub observe_deployment : ℕ → Observation → Db → Bool × Bool × Db
  unfolding observe kept_logs add_logs
  observe_deployment server seen db = elim (find deployment_key seen.deployment_id db.deployments) [
    | none ↦ (false, false, db)
    | some d ↦
        let added = add_logs d.id seen.logs db.deployment_logs in
        if d.server_id == server && d.generation == seen.generation
        then (
          true,
          added.0,
          record db {
            deployments =
                put deployment_key (observe (exists (is_active_of d.id) db.operations) seen d)
                  db.deployments;
            deployment_logs = kept_logs d.id seen.logs added.1;
          },
        )
        else (false, false, db)
  ]

  -- The ids of the changed deployments, whether logs were added, and the database.
  unfoldable pub apply_runtime_report : ℕ → List Observation → Db → List ℕ × Bool × Db
  unfolding observe_deployment
  apply_runtime_report server [] db = ([], false, db)
  apply_runtime_report server (seen ∷ observations) db =
      let once = observe_deployment server seen db in
      let others = apply_runtime_report server observations once.2 in
      (if once.0 then seen.deployment_id ∷ others.0 else others.0, once.1 || others.1, others.2)
