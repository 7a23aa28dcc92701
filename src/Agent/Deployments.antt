-- ===== src/Agent/Deployments.antt =====
-- `DeploymentSupervisor` of deployment_supervisor.py: its tick and its terminal reports. `none` is
-- a `CentralRequestError`; a renewal that fails changes nothing. An authentication error of the
-- client is not modelled.
pub mod Reported
use ai_infra_console.Prelude.{
  ℕ, ◌-◌, Text, text, Bool, true, false, Option, none, some, leb, if◌then◌else◌,
}
use ai_infra_console.Deployments.Reports.{TerminalRequest, Outcome, ObservedState}
use ai_infra_console.Deployments.Commands.{DeploymentCommand}
use ai_infra_console.Agent.Runtime.{DeploymentExecutionResult}

-- How `runtime.execute` ends: a result, a `DeploymentExecutionError` with its code and message, or
-- any other exception.
pub data DeploymentExecution : Type 0 where
  executed : DeploymentExecutionResult → DeploymentExecution
  refused : Text → Text → DeploymentExecution
  crashed : DeploymentExecution

failure_report : Text → ℕ → Text → Text → TerminalRequest
failure_report token generation code message = record {
  lease_token = token;
  generation = generation;
  outcome = Outcome.failed;
  observed_state = ObservedState.failed;
  container_id = none;
  error_code = some code;
  error_message = some message;
}

-- The terminal report of `_run` and `_complete_failure`.
unfoldable pub deployment_report : Text → ℕ → DeploymentExecution → TerminalRequest
unfolding text failure_report
deployment_report token generation (executed result) = record {
  lease_token = token;
  generation = generation;
  outcome = Outcome.completed;
  observed_state = result.state;
  container_id = result.container_id;
  error_code = none;
  error_message = none;
}
deployment_report token generation (refused code message) =
    failure_report token generation code message
deployment_report token generation crashed =
    failure_report token generation (text "deployment_executor_failure")
      (text "The Agent deployment executor failed unexpectedly.")

-- The supervisor between ticks: the running command with whether it is done, `_stopping`, and when
-- it last reconciled.
pub record DeploymentSupervisor : Type 0 where
  pub active : Option (DeploymentCommand × Bool)
  pub stopping : Bool
  pub last_reconcile : ℕ

abbrev pub reaped_command : Option (DeploymentCommand × Bool) → Option (DeploymentCommand × Bool)
reaped_command (some (command, true)) = none
reaped_command active = active

-- The active command after a claim, which is sent when there is none.
abbrev pub after_claim :
    Option (DeploymentCommand × Bool)
    → Option (Option DeploymentCommand)
    → Option (DeploymentCommand × Bool)
after_claim (some running) answer = some running
after_claim none (some (some command)) = some (command, false)
after_claim none _ = none

-- `tick` at an instant, on what `claim_deployment_task` answers if it is called: whether it
-- reconciles, and the supervisor after it.
unfoldable pub deployment_tick :
    ℕ → ℕ → Option (Option DeploymentCommand) → DeploymentSupervisor → Bool × DeploymentSupervisor
deployment_tick reconcile_after now answer s =
    let idle = reaped_command s.active in
    if s.stopping
    then (false, record s { active = idle })
    else if leb reconcile_after (now - s.last_reconcile)
    then (true, record s { active = after_claim idle answer; last_reconcile = now })
    else (false, record s { active = after_claim idle answer })
