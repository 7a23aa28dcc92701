-- ===== src/Scenario/Containers.antt =====
-- The theorems on the container runtimes, applied to a daemon with one container.
use ai_infra_console.Prelude.{
  ℕ, ◌+◌, ◌≤◌, Text, text, ◌≡◌, ◌≢◌, refl, ap, Bool, true, false, Option, none, some, List, [], ◌∷◌,
  length, exists, arith, ok, find, text_eq,
}
use ai_infra_console.Db.Deployments.{Action, DeploymentLog, DeploymentStatus, Health}
use ai_infra_console.Deployments.Commands.{DeploymentLifecycleCommand}
use ai_infra_console.Deployments.Runtime.{add_logs}
use ai_infra_console.Agent.Runtime.Docker.{
  Container, Docker, Answer, returned, not_found, api_error, run_lifecycle,
}
use ai_infra_console.Agent.Runtime.Docker.Lifecycle.{IsDaemon, Reaches, run_lifecycle-Reaches}
use ai_infra_console.Agent.Runtime.Fixture.{Containers, store, fixture_lifecycle}
use ai_infra_console.Agent.Runtime.Fixture.Lifecycle.{Settles, fixture_lifecycle-Settles}
use ai_infra_console.Agent.Runtime.Logs.{fresh_cursor, log_entries}
use ai_infra_console.Agent.Runtime.Logs.Numbered.{
  Numbers, HasEntries, log_entries-Numbers, restarted-drops,
}
use ai_infra_console.Db.{Db}
use ai_infra_console.Deployments.Reports.{
  running, stopped, verify_operation_lease, deployment_at, complete_deployment_operation,
}
use ai_infra_console.Agent.Deployments.{deployment_report, executed}
use ai_infra_console.Agent.Deployments.Reported.{executed-IsAccepted}
use ai_infra_console.Scenario.Machines.{chat}
use ai_infra_console.Scenario.Deployments.{stopping_leased, stopping_db', stopping_owned}
use ai_infra_console.Scenario.{marked}

-- A daemon with at most one container, which it knows under every name.
abbrev found_in : Option Container → Answer Container
found_in none = not_found
found_in (some c) = returned c

abbrev set_running : Bool → Option Container → Option Container
set_running b none = none
set_running b (some c) = some (record c { is_running = b })

abbrev pub one_slot : Docker (Option Container)
one_slot = record {
  get = λ name slot. found_in slot;
  reload = λ id slot. found_in slot;
  start = λ id slot. (set_running true slot, returned tt);
  stop = λ id slot. (set_running false slot, returned tt);
  restart = λ id slot. (set_running true slot, returned tt);
  remove = λ id slot. (none, returned tt);
  create = λ request slot. (slot, api_error);
  port_available = λ port slot. true;
}

set-found :
    (b : Bool) (slot : Option Container) (c : Container)
    → found_in slot ≡ returned c
    → found_in (set_running b slot) ≡ returned (record c { is_running = b })
set-found b none c h = cc
set-found b (some c') c h =
    let same : c' ≡ c = cc in ap {A = Container} (λ x. returned (record x { is_running = b })) same

one_slot-IsDaemon : IsDaemon one_slot
one_slot-IsDaemon = record {
  starts = λ name c slot h e. set-found true slot c h;
  stops = λ name c slot h e. set-found false slot c h;
  restarts = λ name c slot h e. set-found true slot c h;
  removes = λ name c slot h e. refl;
}

abbrev server_container : Container
server_container = record {
  id = text "c0ffee";
  managed_label = some (text "true");
  deployment_label = some (text "l");
  generation_label = some (text "2");
  port_label = some (text "8000");
  is_running = true;
}

abbrev stop_command : DeploymentLifecycleCommand
stop_command = record {
  kind = Action.stop;
  operation_id = 70;
  deployment_id = 60;
  generation = 2;
  lease_token = text "token";
  container_name = text "ai-infra-1";
}

abbrev pub one_digit : ℕ → Text
one_digit n = (48 + n) ∷ []

stop_not_create : Action.stop ≢ Action.create
stop_not_create e = cc

run_lifecycle-Reaches_example :
    Reaches one_slot one_digit one_digit
      (text "ai-infra-1")
      Action.stop
      running
      (run_lifecycle one_slot one_digit one_digit stop_command (some server_container))
run_lifecycle-Reaches_example =
    run_lifecycle-Reaches one_slot one_digit one_digit one_slot-IsDaemon stop_command
      (some server_container) stop_not_create

abbrev one_container : Containers
one_container =
    store 60
      (some (record {
        deployment_id = 1;
        generation = 2;
        container_id = text "c0ffee";
        port = 8_000;
        state = running;
        logs = [];
      }))
      (λ id. none)

fixture_lifecycle-Settles_example :
    Settles Action.stop 60 2 one_container (fixture_lifecycle stop_command one_container)
fixture_lifecycle-Settles_example =
    fixture_lifecycle-Settles stop_command one_container stop_not_create

abbrev two_lines : List Text
two_lines = text "INFO ready" ∷ [] ∷ text "INFO ready" ∷ []

log_entries-Numbers_example : Numbers fresh_cursor (log_entries marked 5 200 two_lines fresh_cursor)
log_entries-Numbers_example = log_entries-Numbers marked 5 200 two_lines fresh_cursor

-- The one entry that the service kept of the agent before its restart.
abbrev kept_entry : DeploymentLog
kept_entry = record {
  id = 1;
  deployment_id = 1;
  sequence = 1;
  timestamp = 3;
  stream = text "stdout";
  message = text "INFO starting";
}

kept-HasEntries : HasEntries 1 1 (kept_entry ∷ [])
unfolding exists
kept-HasEntries k low high = ground arith

two_lines_once : length (log_entries marked 5 200 two_lines fresh_cursor).0 ≡ 1
unfolding log_entries exists fresh_cursor
two_lines_once = refl

two_lines_numbered : length (log_entries marked 5 200 two_lines fresh_cursor).0 ≤ 1
two_lines_numbered = omega (arith, two_lines_once)

restarted-drops_example :
    add_logs
      (λ deployment sequence. sequence)
      100
      1
      (log_entries marked 5 200 two_lines fresh_cursor).0
      (kept_entry ∷ [])
    ≡ (false, kept_entry ∷ [])
restarted-drops_example =
    restarted-drops (λ deployment sequence. sequence) 100 marked 5 200 1 1 two_lines
      (kept_entry ∷ []) kept-HasEntries two_lines_numbered

-- The container after the stop.
stop_executed : run_lifecycle one_slot one_digit one_digit stop_command (some server_container) ≡ (
  some (record server_container { is_running = false }),
  ok (record { state = stopped; container_id = some (text "c0ffee") }),
)
unfolding run_lifecycle text_eq
stop_executed = refl

stop_lease :
    verify_operation_lease stopping_leased
      (marked stop_command.lease_token)
      stop_command.generation
      900
    ≡ ok tt
unfolding verify_operation_lease text_eq text
stop_lease = refl

stop_deployment_there :
    deployment_at stopping_leased.deployment_id stop_command.generation stopping_db'.deployments
    ≡ some (record chat { status = DeploymentStatus.stopping; health_status = Health.unknown })
unfolding find
stop_deployment_there = refl

executed-IsAccepted_example :
    (after : ℕ × Bool × Db) × (complete_deployment_operation marked 1 70
        (deployment_report
          (text "token")
          2
          (executed (record { state = stopped; container_id = some (text "c0ffee") })))
        900
        stopping_db'
      ≡ ok after)
executed-IsAccepted_example =
    executed-IsAccepted one_slot one_digit one_digit one_slot-IsDaemon marked stop_command
      (some server_container) (some (record server_container { is_running = false }))
      (record { state = stopped; container_id = some (text "c0ffee") }) 1 900 stopping_leased
      (record chat { status = DeploymentStatus.stopping; health_status = Health.unknown })
      stopping_db' stop_not_create stop_executed stopping_owned refl refl stop_lease
      stop_deployment_there
