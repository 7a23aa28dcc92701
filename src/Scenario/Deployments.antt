-- ===== src/Scenario/Deployments.antt =====
-- The theorems on deployments, applied to the machines of the scenario.
use ai_infra_console.Json.{get, get_field}
use ai_infra_console.Deployments.Eligibility.{
  eligible_server, docker_available, deployment_enabled, decimal, endpoint, is_true,
}
use ai_infra_console.ModelTasks.DeleteRequests.{installation}
use ai_infra_console.Deployments.Arguments.{validate_extra_arguments, flag_arity}
use ai_infra_console.Strings.{safe_text, starts_with, strip}
use ai_infra_console.Prelude.{
  ◌≤◌, Text, text, ◌≡◌, refl, Bool, false, none, some, [], ◌∷◌, ok, arith, map, length, All,
  UniqueIds, find, count_by, exists, put, select, sort_by, text_eq, first, insert_by,
}
use ai_infra_console.Db.{Db}
use ai_infra_console.Db.Deployments.{
  Deployment, DeploymentStatus, DesiredState, Health, Action, OperationStatus, DeploymentOperation,
}
use ai_infra_console.Deployments.Placement.{
  plan_gpus, gpu_key, is_allocated, is_selectable, latest_gpu_metric, pick_gpus, precedes,
  key_precedes,
}
use ai_infra_console.Deployments.Placement.Sound.{
  IsUsable, IsBest, AllUsable, manual-plan, automatic-plan,
}
use ai_infra_console.Deployments.Creation.{
  create_deployment, is_supported, new_deployment, usable_installation,
}
use ai_infra_console.Deployments.Creation.Reserved.{IsReserved, create-IsReserved}
use ai_infra_console.Deployments.Actions.{queue_deployment_action}
use ai_infra_console.Deployments.Actions.Queued.{Queueing, queue-Queueing}
use ai_infra_console.Deployments.Operations.{
  claim_deployment_operation, operation_key, next_operation, run_operation,
}
use ai_infra_console.Deployments.Operations.Exclusion.{live_operations, claim_operation-live}
use ai_infra_console.Deployments.Operations.Outcomes.{Leaves, complete-Leaves}
use ai_infra_console.Deployments.Reports.{
  TerminalRequest, Outcome, ObservedState, owned_operation, complete_deployment_operation,
  renew_deployment_operation, finish_operation, settle, verify_operation_lease,
}
use ai_infra_console.Deployments.Commands.{
  DeploymentCommand, lifecycle, container_name_for, command_for,
}
use ai_infra_console.Scenario.{marked, mutable_names}
use ai_infra_console.Deployments.Operations.Authority.{
  IsAuthorized, complete-IsAuthorized, renew-IsAuthorized,
}
use ai_infra_console.Scenario.Machines.{
  gpu_0, gpu_1, ready_db, docker_db, automatic_request, manual_request, chat, stopping, stopping_db,
}

automatic_planned : plan_gpus 60 2_000_000 1 automatic_request ready_db ≡ ok (gpu_1 ∷ [])
unfolding plan_gpus sort_by select is_selectable is_allocated exists text_eq text latest_gpu_metric
    precedes
automatic_planned = refl

automatic-plan_example :
    (length (gpu_1 ∷ []) ≡ 1)
    × AllUsable 60 2_000_000 1 ready_db (gpu_1 ∷ [])
    × IsBest 60 2_000_000 1 ready_db (gpu_1 ∷ [])
automatic-plan_example =
    automatic-plan 60 2_000_000 1 ready_db automatic_request (gpu_1 ∷ []) refl automatic_planned

manual_planned : plan_gpus 60 2_000_000 1 manual_request ready_db ≡ ok (gpu_0 ∷ [])
unfolding plan_gpus sort_by select pick_gpus find is_selectable is_allocated exists text_eq text
    latest_gpu_metric
manual_planned = refl

manual-plan_example :
    (map gpu_key (gpu_0 ∷ []) ≡ 40 ∷ []) × All (IsUsable 60 2_000_000 1 ready_db) (gpu_0 ∷ [])
manual-plan_example =
    manual-plan 60 2_000_000 1 ready_db manual_request (gpu_0 ∷ []) refl manual_planned

-- No host is an IPv6 address.
abbrev no_ipv6 : Text → Bool
no_ipv6 s = false

abbrev new_chat : Deployment
new_chat = record chat {
  desired_state = DesiredState.running;
  status = DeploymentStatus.queued;
  generation = 1;
  endpoint = some (text "http://10.0.0.4:8100/v1");
  container_id = none;
  health_status = Health.unknown;
  started_at = none;
  created_at = 2_000_000;
}

abbrev creating : DeploymentOperation
creating = record stopping {
  id = 71;
  action = Action.create;
  generation = 1;
  created_at = 2_000_000;
}

abbrev created_db : Db
created_db = record docker_db {
  deployments = new_chat ∷ [];
  operations = creating ∷ [];
  deployment_gpus = record { deployment_id = 60; gpu_id = 41 } ∷ [];
}

chat_created :
    create_deployment no_ipv6 mutable_names 60 automatic_request 7 none 60 71 2_000_000 docker_db
    ≡ ok (new_chat, creating, created_db)
unfolding create_deployment plan_gpus text validate_extra_arguments flag_arity installation
    is_supported new_deployment usable_installation exists first select sort_by find insert_by
    text_eq eligible_server docker_available deployment_enabled decimal endpoint is_true get
    get_field starts_with strip is_selectable is_allocated latest_gpu_metric precedes key_precedes
chat_created = refl

create-IsReserved_example :
    IsReserved 60 2_000_000 automatic_request new_chat creating docker_db created_db
create-IsReserved_example =
    create-IsReserved no_ipv6 mutable_names 60 automatic_request 7 none 60 71 2_000_000 new_chat
      creating docker_db created_db chat_created

-- A restart is asked for while the stop is queued.
queue-Queueing_example :
    Queueing Action.restart chat stopping_db
      (queue_deployment_action Action.restart 7 none 72 300 chat stopping_db)
queue-Queueing_example = queue-Queueing Action.restart 7 none 72 300 chat stopping_db refl

abbrev pub stopping_leased : DeploymentOperation
stopping_leased = record stopping {
  status = OperationStatus.running;
  attempt_count = 1;
  lease_token_hash = some (text "#token");
  lease_expires_at = some 60_000_400;
  started_at = some 400;
}

abbrev pub stopping_db' : Db
stopping_db' = record stopping_db {
  deployments =
      record chat { status = DeploymentStatus.stopping; health_status = Health.unknown } ∷ [];
  operations = stopping_leased ∷ [];
}

abbrev stop_command : DeploymentCommand
stop_command = lifecycle (record {
  kind = Action.stop;
  operation_id = 70;
  deployment_id = 60;
  generation = 2;
  lease_token = text "token";
  container_name = text "ai-infra-0000000000000000000000000000003c";
})

stopping_claimed :
    claim_deployment_operation marked 60 (text "token") (text "vllm/vllm-openai") 1 400 stopping_db
    ≡ ok (some stop_command, stopping_db')
unfolding claim_deployment_operation exists next_operation run_operation find command_for text
    container_name_for put
stopping_claimed = refl

stopping_db-ids : UniqueIds operation_key stopping_db.operations
unfolding find
stopping_db-ids = (refl, tt)

stopping_db-idle : live_operations 1 400 stopping_db ≤ 1
unfolding live_operations count_by
stopping_db-idle = omega arith

claim_operation-live_example :
    (live_operations 1 400 stopping_db' ≤ 1) × UniqueIds operation_key stopping_db'.operations
claim_operation-live_example =
    claim_operation-live marked 60 (text "token") (text "vllm/vllm-openai") 1 1 400 stopping_db
      stopping_db' (some stop_command) stopping_db-ids stopping_db-idle stopping_claimed

abbrev stopped_report : TerminalRequest
stopped_report = record {
  lease_token = text "token";
  generation = 2;
  outcome = Outcome.completed;
  observed_state = ObservedState.stopped;
  container_id = none;
  error_code = none;
  error_message = none;
}

abbrev stopped_db : Db
stopped_db = record stopping_db' {
  deployments =
      record chat {
        status = DeploymentStatus.stopped;
        health_status = Health.unknown;
        stopped_at = some 900;
        last_reconciled_at = some 900;
      }
      ∷ [];
  operations =
      record stopping_leased {
        status = OperationStatus.completed;
        lease_token_hash = none;
        lease_expires_at = none;
        completed_at = some 900;
      }
      ∷ [];
}

pub stopping_owned : owned_operation 1 70 stopping_db'.operations ≡ some stopping_leased
unfolding find
stopping_owned = refl

stopping_completed :
    complete_deployment_operation marked 1 70 stopped_report 900 stopping_db'
    ≡ ok (60, false, stopped_db)
unfolding complete_deployment_operation find verify_operation_lease text_eq text settle put
    finish_operation safe_text
stopping_completed = refl

complete-Leaves_example :
    (stopping_leased.deployment_id ≡ 60)
    × (false ≡ false)
    × Leaves false DeploymentStatus.stopped 60 stopped_db
complete-Leaves_example =
    complete-Leaves marked 1 70 900 stopped_report stopping_leased stopping_db' stopped_db 60 false
      stopping_owned stopping_completed

complete-IsAuthorized_example : IsAuthorized marked 1 70 900 2 (text "token") stopping_db'
complete-IsAuthorized_example =
    complete-IsAuthorized marked 1 70 900 60 stopped_report false stopping_db' stopped_db
      stopping_completed

stopping_renewed :
    renew_deployment_operation marked 60 1 70 (text "token") 2 900 stopping_db'
    ≡ ok (
      60_000_900,
      record stopping_db' {
        operations = record stopping_leased { lease_expires_at = some 60_000_900 } ∷ [];
      },
    )
unfolding renew_deployment_operation find verify_operation_lease text_eq text put
stopping_renewed = refl

renew-IsAuthorized_example : IsAuthorized marked 1 70 900 2 (text "token") stopping_db'
renew-IsAuthorized_example =
    renew-IsAuthorized marked 60 1 70 900 2 60_000_900 (text "token") stopping_db' _
      stopping_renewed
