-- ===== src/Agent/Downloads/Supervisor.antt =====
-- `ModelTaskSupervisor` of task_supervisor.py: the tick that claims a task, the reporting loop of
-- a running download, and the terminal report. What the central service answers and how the
-- executor's thread ends are given from outside; `none` is a `CentralRequestError`. An authentication
-- error of the client, which ends the loop, is not modelled.
pub mod Cancelling
pub mod Reclaims
pub mod Ticks
pub mod Ends
use ai_infra_console.Prelude.{
  ℕ, suc, Text, text, Bool, true, false, ◌||◌, Option, none, some, List, [], ◌∷◌, leb,
  if◌then◌else◌,
}
use ai_infra_console.ModelTasks.Claims.{ModelTaskCommand}
use ai_infra_console.ModelTasks.Downloads.{
  DownloadTerminalRequest, DownloadOutcome, completed, failed, cancelled,
}
use ai_infra_console.Agent.Downloads.{ProgressSnapshot, DownloadExecutionResult}

-- The local variables of the loop: the failures in a row, and whether `cancel_event` is set.
pub record Reporting : Type 0 where
  pub report_failures : ℕ
  pub cancel_event : Bool

unfoldable pub start_reporting : Reporting
start_reporting = record { report_failures = 0; cancel_event = false }

-- One turn of the loop: the answer's `cancel_requested`, or a failed request.
unfoldable pub report_turn : Option Bool → Reporting → Reporting
report_turn (some cancel_requested) r = record {
  report_failures = 0;
  cancel_event = r.cancel_event || cancel_requested;
}
report_turn none r = record {
  report_failures = suc r.report_failures;
  cancel_event = r.cancel_event || leb 3 (suc r.report_failures);
}

-- The loop over the answers that come before the execution is done.
abbrev pub report_loop : List (Option Bool) → Reporting → Reporting
report_loop [] r = r
report_loop (answer ∷ answers) r = report_loop answers (report_turn answer r)

-- How `execute_download` ends: a result, `ModelTaskCancelled`, a `ModelTaskExecutionError` with its
-- code and message, or any other exception.
pub data Execution : Type 0 where
  finished : DownloadExecutionResult → Execution
  stopped : Execution
  refused : Text → Text → Execution
  crashed : Execution

-- The terminal report of `_run_download`, from the last snapshot.
unfoldable pub terminal_report : Text → ProgressSnapshot → Execution → DownloadTerminalRequest
unfolding text
terminal_report token snapshot (finished result) = record {
  lease_token = token;
  outcome = completed;
  downloaded_size = result.downloaded_size;
  total_size = result.total_size;
  final_path = some result.path;
  error_code = none;
  error_message = none;
}
terminal_report token snapshot stopped = record {
  lease_token = token;
  outcome = cancelled;
  downloaded_size = snapshot.downloaded_size;
  total_size = snapshot.total_size;
  final_path = none;
  error_code = some (text "cancelled");
  error_message = none;
}
terminal_report token snapshot (refused code message) = record {
  lease_token = token;
  outcome = failed;
  downloaded_size = snapshot.downloaded_size;
  total_size = snapshot.total_size;
  final_path = none;
  error_code = some code;
  error_message = some message;
}
terminal_report token snapshot crashed = record {
  lease_token = token;
  outcome = failed;
  downloaded_size = snapshot.downloaded_size;
  total_size = snapshot.total_size;
  final_path = none;
  error_code = some (text "executor_failure");
  error_message = some (text "The Agent model executor failed unexpectedly.");
}

-- The supervisor between ticks: the running task with whether it is done, and `_stopping`.
pub record ModelTaskSupervisor : Type 0 where
  pub active : Option (ModelTaskCommand × Bool)
  pub cancel_event : Bool
  pub stopping : Bool

-- A finished task is taken off.
abbrev pub reaped : Option (ModelTaskCommand × Bool) → Option (ModelTaskCommand × Bool)
reaped (some (command, true)) = none
reaped active = active

-- `tick`, on what `claim_model_task` answers if it is called: whether it is called, and the
-- supervisor after it. A claim that fails leaves it as it is.
unfoldable pub tick :
    Option (Option ModelTaskCommand) → ModelTaskSupervisor → Bool × ModelTaskSupervisor
tick answer s =
    let idle = record s {
      active = reaped s.active;
      cancel_event = elim s.active [ some (command, true) ↦ false | _ ↦ s.cancel_event ];
    } in
    if s.stopping then (false, idle) else elim idle.active [
      | some running ↦ (false, idle)
      | none ↦ elim answer [
        | none ↦ (true, idle)
        | some none ↦ (true, idle)
        | some (some command) ↦
            (true, record idle { active = some (command, false); cancel_event = false })
      ]
    ]

-- `stop`: the event is set if there is one.
unfoldable pub stop : ModelTaskSupervisor → ModelTaskSupervisor
stop s = record s {
  stopping = true;
  cancel_event = elim s.active [ none ↦ s.cancel_event | some running ↦ true ];
}
