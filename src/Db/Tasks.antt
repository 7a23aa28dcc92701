-- ===== src/Db/Tasks.antt =====
-- The download and deletion tasks of models. The statuses are the literals of
-- apps/api/src/ai_infra_api/schemas/model_tasks.py.
use ai_infra_console.Prelude.{ℕ, Text, Option}

pub data DownloadStatus : Type 0 where
  queued downloading cancelling completed failed cancelled : DownloadStatus

pub record ModelDownloadTask : Type 0 where
  pub id : ℕ
  pub model_id : Option ℕ
  pub server_id : ℕ
  pub directory_id : Option ℕ
  pub requested_by_user_id : Option ℕ
  pub source : Text
  pub source_id : Text
  pub revision : Text
  pub target_path : Text
  pub status : DownloadStatus
  pub downloaded_size : ℕ
  pub total_size : Option ℕ
  pub speed_bytes_per_second : Option ℕ
  pub attempt_count : ℕ
  pub lease_token_hash : Option Text
  pub lease_expires_at : Option ℕ
  pub last_progress_at : Option ℕ
  pub cancel_requested_at : Option ℕ
  pub error_code : Option Text
  pub error_message : Option Text
  pub started_at : Option ℕ
  pub completed_at : Option ℕ
  pub created_at : ℕ

pub data DeleteStatus : Type 0 where
  queued deleting completed failed : DeleteStatus

pub record ModelDeleteTask : Type 0 where
  pub id : ℕ
  pub model_file_id : Option ℕ
  pub server_id : ℕ
  pub directory_id : Option ℕ
  pub requested_by_user_id : Option ℕ
  pub source : Text
  pub source_id : Text
  pub target_path : Text
  pub status : DeleteStatus
  pub attempt_count : ℕ
  pub lease_token_hash : Option Text
  pub lease_expires_at : Option ℕ
  pub error_code : Option Text
  pub error_message : Option Text
  pub started_at : Option ℕ
  pub completed_at : Option ℕ
  pub created_at : ℕ
