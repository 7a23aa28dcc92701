-- ===== src/ModelTasks/Errors.antt =====
-- The codes of `ModelTaskError`, and the HTTP status that `task_error` of
-- apps/api/src/ai_infra_api/api/downloads.py answers with.
use ai_infra_console.Prelude.{ℕ}

pub data TaskError : Type 0 where
  invalid_source_id invalid_target_path : TaskError
  server_not_found server_mutation_not_allowed server_offline agent_unavailable : TaskError
  model_directory_not_selectable : TaskError
  download_already_active model_already_installed : TaskError
  download_not_cancellable download_not_retryable : TaskError
  model_installation_not_found delete_confirmation_mismatch model_directory_mismatch : TaskError
  model_installation_in_use delete_already_active : TaskError
  invalid_task_lease expired_task_lease : TaskError
  download_task_not_found download_not_active download_progress_regressed : TaskError
  invalid_download_progress download_path_mismatch : TaskError
  delete_task_not_found delete_not_active : TaskError

abbrev pub task_error : TaskError → ℕ
task_error server_not_found = 404
task_error model_installation_not_found = 404
task_error download_task_not_found = 404
task_error delete_task_not_found = 404
task_error download_already_active = 409
task_error model_already_installed = 409
task_error delete_already_active = 409
task_error model_installation_in_use = 409
task_error server_offline = 409
task_error agent_unavailable = 409
task_error _ = 422
