-- ===== src/Scenario/Texts.antt =====
-- The theorems on paths, texts and command lines, applied.
use ai_infra_console.Prelude.{
  Text, text, ◌≡◌, ◌⊎◌, refl, some, none, find, put, text_eq, arith, [], ◌∷◌, ok, err,
}
use ai_infra_console.Strings.{safe_text, split, strip}
use ai_infra_console.Db.Tasks.{ModelDownloadTask, failed}
use ai_infra_console.Strings.Laws.{AllClean, IsWithin}
use ai_infra_console.ModelTasks.Errors.{invalid_source_id}
use ai_infra_console.ModelTasks.Paths.{
  huggingface, modelscope, build_target_path, show_path, is_dots, validate_repository_id,
}
use ai_infra_console.ModelTasks.Paths.Inside.{IsName, below, build_target_path_lem}
use ai_infra_console.Deployments.Arguments.Grammar.{Decided, validate-decides}
use ai_infra_console.Scenario.{parse_backslashes, marked}
use ai_infra_console.Scenario.Tasks.{leased_task, leased_db}
use ai_infra_console.ModelTasks.Downloads.{
  DownloadOutcome, DownloadTerminalRequest, complete_download_task, complete_task,
}
use ai_infra_console.ModelTasks.Downloads.Columns.{complete-AllClean}

-- A download that fails, with a line break in its message.
abbrev failed_end : DownloadTerminalRequest
failed_end = record {
  lease_token = text "token";
  outcome = DownloadOutcome.failed;
  downloaded_size = 500;
  total_size = some 1_000;
  final_path = none;
  error_code = some (text "disk_full");
  error_message = some (text "no\nspace left ");
}

abbrev failed_task : ModelDownloadTask
failed_task = record leased_task {
  status = failed;
  downloaded_size = 500;
  total_size = some 1_000;
  speed_bytes_per_second = some 0;
  last_progress_at = some 30;
  completed_at = some 30;
  error_code = some (text "disk_full");
  error_message = some (text "no space left");
  lease_token_hash = none;
  lease_expires_at = none;
}

download_failed :
    complete_download_task marked 1 1 failed_end 30 leased_db
    ≡ ok (failed_task, record leased_db { downloads = failed_task ∷ [] })
unfolding complete_download_task complete_task safe_text find put text text_eq
download_failed = refl

code-IsWithin : IsWithin 64 failed_end.error_code
unfolding text
code-IsWithin = omega arith

message-IsWithin : IsWithin 1_024 failed_end.error_message
unfolding text
message-IsWithin = omega arith

complete-AllClean_example :
    AllClean 64 (some (text "disk_full")) × AllClean 1_024 (some (text "no space left"))
complete-AllClean_example =
    complete-AllClean marked 1 1 30 failed_end leased_db
      (record leased_db { downloads = failed_task ∷ [] }) failed_task code-IsWithin message-IsWithin
      download_failed

-- A root with backslashes.
build_target_path_lem_example :
    ((owner : Text) × (repository : Text) × (build_target_path parse_backslashes
          (text "models\\llm")
          modelscope
          (text "Qwen/Qwen3-8B")
        ≡ ok (show_path (below parse_backslashes (text "models\\llm") modelscope owner repository)))
      × IsName owner
      × IsName repository)
    ⊎ (build_target_path parse_backslashes (text "models\\llm") modelscope (text "Qwen/Qwen3-8B")
        ≡ err invalid_source_id)
build_target_path_lem_example =
    build_target_path_lem parse_backslashes (text "models\\llm") modelscope (text "Qwen/Qwen3-8B")

-- A path that would climb out of the root is refused.
climbing_refused :
    build_target_path parse_backslashes (text "/models") huggingface (text "../secrets")
    ≡ err invalid_source_id
unfolding build_target_path text validate_repository_id split strip is_dots
climbing_refused = refl

validate-decides_example : Decided (text "--task" ∷ text "generate" ∷ text "--enforce-eager" ∷ [])
validate-decides_example =
    validate-decides (text "--task" ∷ text "generate" ∷ text "--enforce-eager" ∷ [])
