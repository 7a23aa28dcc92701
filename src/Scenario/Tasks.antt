-- ===== src/Scenario/Tasks.antt =====
-- The theorems on model tasks, applied to the life of a download.
use ai_infra_console.Strings.{split, strip}
use ai_infra_console.Prelude.{
  ◌≤◌, text, text_eq, ◌≡◌, ◌≢◌, refl, false, none, some, [], ◌∷◌, ok, err, arith, find, put, Elem,
  inl, inr, exists, first, min_by, select,
}
use ai_infra_console.Db.{Db}
use ai_infra_console.Db.Tasks.{ModelDownloadTask, queued, downloading}
use ai_infra_console.ModelTasks.Errors.{invalid_task_lease, expired_task_lease}
use ai_infra_console.ModelTasks.Paths.{
  build_target_path, is_dots, is_relative_to, is_repository_part, parse_posix, provider_text,
  same_path, show_path, validate_repository_id,
}
use ai_infra_console.ModelTasks.Downloads.{
  DownloadOutcome, DownloadProgressRequest, DownloadTerminalRequest, report_download_progress,
  complete_download_task, progress_task,
}
use ai_infra_console.ModelTasks.Claims.{
  claim_model_task, lease_download, DownloadTaskCommand, download_command, candidate_delete,
  candidate_download, claim_row, select_row, usable_directory,
}
use ai_infra_console.ModelTasks.Claims.Exclusion.{HasUniqueIds}
use ai_infra_console.ModelTasks.Claims.Selection.{IsClaimed, claim-IsClaimed}
use ai_infra_console.ModelTasks.Claims.Fencing.{claim-fences, claim-then-progress, claim-then-late}
use ai_infra_console.ModelTasks.Creation.{create_download_task, eligible_target, model_of}
use ai_infra_console.Scenario.{marked, parse_backslashes, mutable_names, fresh_db, qwen}

-- The first download, as it is queued at the instant 5.
abbrev pub qwen_task : ModelDownloadTask
qwen_task = record {
  id = 1;
  model_id = some 20;
  server_id = 1;
  directory_id = some 3;
  requested_by_user_id = some 7;
  source = text "huggingface";
  source_id = text "Qwen/Qwen3-8B";
  revision = text "main";
  target_path = text "/models/huggingface/Qwen/Qwen3-8B";
  status = queued;
  downloaded_size = 0;
  total_size = none;
  speed_bytes_per_second = none;
  attempt_count = 0;
  lease_token_hash = none;
  lease_expires_at = none;
  last_progress_at = none;
  cancel_requested_at = none;
  error_code = none;
  error_message = none;
  started_at = none;
  completed_at = none;
  created_at = 5;
}

abbrev pub qwen_db : Db
qwen_db = record fresh_db {
  models =
      record {
        id = 20;
        source = text "huggingface";
        source_id = text "Qwen/Qwen3-8B";
        name = text "Qwen/Qwen3-8B";
        display_name = some (text "Qwen3-8B");
      }
      ∷ [];
  downloads = qwen_task ∷ [];
}

pub qwen_created :
    create_download_task parse_backslashes mutable_names qwen 7 20 1 5 fresh_db
    ≡ ok (qwen_task, qwen_db)
unfolding create_download_task text text_eq eligible_target find exists first build_target_path
    validate_repository_id split strip is_dots is_repository_part same_path parse_posix
    provider_text is_relative_to model_of show_path
qwen_created = refl

abbrev pub leased_task : ModelDownloadTask
leased_task = record qwen_task {
  status = downloading;
  attempt_count = 1;
  lease_token_hash = some (text "#token");
  lease_expires_at = some 60_000_009;
  started_at = some 9;
}

abbrev pub leased_db : Db
leased_db = record qwen_db { downloads = leased_task ∷ [] }

abbrev qwen_command : DownloadTaskCommand
qwen_command = record {
  task_id = 1;
  lease_token = text "token";
  root_path = text "/models";
  provider = text "huggingface";
  source_id = text "Qwen/Qwen3-8B";
  revision = text "main";
  target_path = text "/models/huggingface/Qwen/Qwen3-8B";
  cancel_requested = false;
}

qwen_claimed :
    claim_model_task marked 60 (text "token") 1 9 qwen_db
    ≡ (some (download_command qwen_command), leased_db)
unfolding claim_model_task text text_eq exists claim_row select_row candidate_download min_by select
    candidate_delete usable_directory find put
qwen_claimed = refl

qwen_db-HasUniqueIds : HasUniqueIds qwen_db
unfolding find
qwen_db-HasUniqueIds = record { downloads = (refl, tt); deletions = tt }

-- A progress report with the token of the command, and a report with another token.
abbrev pub halfway : DownloadProgressRequest
halfway = record {
  lease_token = text "token";
  downloaded_size = 500;
  total_size = some 1_000;
  speed_bytes_per_second = some 25;
}

abbrev intruder : DownloadProgressRequest
intruder = record halfway { lease_token = text "other" }

abbrev intruder_end : DownloadTerminalRequest
intruder_end = record {
  lease_token = text "other";
  outcome = DownloadOutcome.failed;
  downloaded_size = 500;
  total_size = some 1_000;
  final_path = none;
  error_code = none;
  error_message = none;
}

abbrev pub halfway_task : ModelDownloadTask
halfway_task = record leased_task {
  downloaded_size = 500;
  total_size = some 1_000;
  speed_bytes_per_second = some 25;
  last_progress_at = some 30;
  lease_expires_at = some 60_000_030;
}

pub halfway_reported :
    report_download_progress marked 60 1 1 halfway 30 leased_db
    ≡ ok (
      record { cancel_requested = false; lease_expires_at = 60_000_030 },
      record leased_db { downloads = halfway_task ∷ [] },
    )
unfolding report_download_progress find progress_task text_eq text put
halfway_reported = refl

tokens_differ : marked (text "other") ≢ marked (text "token")
unfolding text
tokens_differ e = ground arith

claim-IsClaimed_example :
    (t : ModelDownloadTask) × IsClaimed marked 60
      (text "token")
      1
      9
      qwen_command
      t
      qwen_db
      leased_db
claim-IsClaimed_example =
    claim-IsClaimed marked 60 (text "token") 1 9 qwen_db leased_db qwen_command qwen_claimed

claim-fences_example :
    (report_download_progress marked 60 1 1 intruder 30 leased_db ≡ err invalid_task_lease)
    × (complete_download_task marked 1 1 intruder_end 30 leased_db ≡ err invalid_task_lease)
claim-fences_example =
    claim-fences marked 60 (text "token") 1 9 30 qwen_db leased_db qwen_command intruder
      intruder_end qwen_db-HasUniqueIds qwen_claimed tokens_differ tokens_differ

first_row : (u : ModelDownloadTask) → Elem u qwen_db.downloads → qwen_task.created_at ≤ u.created_at
first_row u (inl e) = rw e (omega arith)
first_row u (inr h) = absurd h

-- The row of the task that is handed out.
qwen_IsClaimed : IsClaimed marked 60 (text "token") 1 9 qwen_command qwen_task qwen_db leased_db
unfolding text put lease_download
qwen_IsClaimed = record {
  waited = refl;
  stored = inl refl;
  oldest = λ u m w. first_row u m;
  before_deletions = λ d m w. absurd m;
  names_task = refl;
  names_token = refl;
  same_target = refl;
  tells_cancel = refl;
  leased = refl;
}

claim-then-progress_example :
    (db'' : Db) × (report_download_progress marked 60 1 1 halfway 30 leased_db
      ≡ ok (record { cancel_requested = false; lease_expires_at = 60_000_030 }, db''))
claim-then-progress_example =
    claim-then-progress marked 60 (text "token") 1 9 30 qwen_db leased_db qwen_command qwen_task
      halfway qwen_db-HasUniqueIds qwen_IsClaimed refl (omega arith) refl (omega arith)

claim-then-late_example :
    report_download_progress marked 60 1 1 halfway 60_000_010 leased_db ≡ err expired_task_lease
claim-then-late_example =
    claim-then-late marked 60 (text "token") 1 9 60_000_010 qwen_db leased_db qwen_command qwen_task
      halfway qwen_db-HasUniqueIds qwen_IsClaimed refl (omega arith) refl (omega arith)
