-- ===== src/ModelTasks/Downloads.antt =====
-- A download task over its life: cancel, retry, progress reports and the terminal report.
pub mod Lifecycle
pub mod Columns
use ai_infra_console.Prelude.{
  ℕ, ◌+◌, Text, text_eq, Bool, true, false, ◌&&◌, ◌||◌, not, Option, none, some, List, ltb, ◌==◌,
  is_some, or_else, Result, ok, err, guard, found, ◌>>=◌, ◌>>◌, find, first, put, if◌then◌else◌,
}
use ai_infra_console.Strings.{safe_text}
use ai_infra_console.Db.{Db, seconds}
use ai_infra_console.Db.Tasks.{DownloadStatus, ModelDownloadTask}
use ai_infra_console.ModelTasks.Errors.{
  TaskError, download_not_cancellable, download_not_retryable, download_task_not_found,
  download_not_active, download_progress_regressed, invalid_download_progress,
  download_path_mismatch,
}
use ai_infra_console.ModelTasks.Leases.{verify_lease}

-- `status in {"downloading", "cancelling"}`
abbrev pub is_claimed : DownloadStatus → Bool
is_claimed DownloadStatus.downloading = true
is_claimed DownloadStatus.cancelling = true
is_claimed _ = false

-- `status in ACTIVE_DOWNLOAD_STATUSES`
abbrev pub is_active_download : DownloadStatus → Bool
is_active_download DownloadStatus.queued = true
is_active_download DownloadStatus.downloading = true
is_active_download DownloadStatus.cancelling = true
is_active_download _ = false

-- `status in {"failed", "cancelled"}`
abbrev pub is_retryable : DownloadStatus → Bool
is_retryable DownloadStatus.failed = true
is_retryable DownloadStatus.cancelled = true
is_retryable _ = false

cancel_in : DownloadStatus → ModelDownloadTask → ℕ → Result TaskError ModelDownloadTask
cancel_in DownloadStatus.queued task now = ok (record task {
  status = DownloadStatus.cancelled;
  cancel_requested_at = some now;
  completed_at = some now;
})
cancel_in DownloadStatus.downloading task now = ok (record task {
  status = DownloadStatus.cancelling;
  cancel_requested_at = some (or_else task.cancel_requested_at now);
})
cancel_in DownloadStatus.cancelling task now = ok (record task {
  status = DownloadStatus.cancelling;
  cancel_requested_at = some (or_else task.cancel_requested_at now);
})
cancel_in DownloadStatus.cancelled task now = ok task
cancel_in _ task now = err download_not_cancellable

unfoldable pub cancel_download_task : ModelDownloadTask → ℕ → Result TaskError ModelDownloadTask
unfolding cancel_in
cancel_download_task task now = cancel_in task.status task now

-- What a retry writes.
abbrev pub requeued : ModelDownloadTask → ModelDownloadTask
requeued task = record task {
  status = DownloadStatus.queued;
  downloaded_size = 0;
  total_size = none;
  speed_bytes_per_second = none;
  lease_token_hash = none;
  lease_expires_at = none;
  last_progress_at = none;
  cancel_requested_at = none;
  error_code = none;
  error_message = none;
  started_at = none;
  completed_at = none;
}

unfoldable pub retry_download_task : ModelDownloadTask → Result TaskError ModelDownloadTask
retry_download_task task = do
  guard (is_retryable task.status) download_not_retryable
  ok (requeued task)

pub data MutateAction : Type 0 where
  cancel retry : MutateAction

abbrev pub mutate_task : MutateAction → ModelDownloadTask → ℕ → Result TaskError ModelDownloadTask
mutate_task cancel task now = cancel_download_task task now
mutate_task retry task now = retry_download_task task

abbrev pub task_id : ModelDownloadTask → ℕ
task_id task = task.id

-- `_mutate_download`: the handler of POST /downloads/{id}/cancel and /retry.
unfoldable pub mutate_download : MutateAction → ℕ → ℕ → Db → Result TaskError Db
mutate_download action id now db = do
  task ← found (find task_id id db.downloads) download_task_not_found
  task' ← mutate_task action task now
  ok (record db { downloads = put task_id task' db.downloads })

pub record DownloadProgressRequest : Type 0 where
  pub lease_token : Text
  pub downloaded_size : ℕ
  pub total_size : Option ℕ
  pub speed_bytes_per_second : Option ℕ

pub record DownloadProgressResponse : Type 0 where
  pub cancel_requested : Bool
  pub lease_expires_at : ℕ

pub data DownloadOutcome : Type 0 where
  completed failed cancelled : DownloadOutcome

pub record DownloadTerminalRequest : Type 0 where
  pub lease_token : Text
  pub outcome : DownloadOutcome
  pub downloaded_size : ℕ
  pub total_size : Option ℕ
  pub final_path : Option Text
  pub error_code : Option Text
  pub error_message : Option Text

abbrev pub fits : ℕ → Option ℕ → Bool
fits downloaded none = true
fits downloaded (some total) = not (ltb total downloaded)

abbrev pub outcome_status : DownloadOutcome → DownloadStatus
outcome_status completed = DownloadStatus.completed
outcome_status failed = DownloadStatus.failed
outcome_status cancelled = DownloadStatus.cancelled

-- `not (outcome == "completed" and final_path != target_path)`
abbrev pub path_agrees : DownloadOutcome → Option Text → Text → Bool
path_agrees completed none target = false
path_agrees completed (some path) target = text_eq path target
path_agrees _ path target = true

-- `ModelDownloadTask.id == task_id, ModelDownloadTask.server_id == server_id`
abbrev pub owned_task : ℕ → ℕ → List ModelDownloadTask → Option ModelDownloadTask
owned_task server id tasks = elim (find task_id id tasks) [
  | none ↦ none
  | some task ↦ if task.server_id == server then some task else none
]

module _ (digest : Text → Text) where
  -- The checks and the writes of `report_download_progress` on the row.
  unfoldable pub progress_task :
      ℕ → DownloadProgressRequest → ℕ → ModelDownloadTask → Result TaskError ModelDownloadTask
  unfolding verify_lease
  progress_task lease_seconds report now task = do
    guard (is_claimed task.status) download_not_active
    verify_lease task.lease_token_hash task.lease_expires_at (digest report.lease_token) now
    guard (not (ltb report.downloaded_size task.downloaded_size)) download_progress_regressed
    guard (fits report.downloaded_size report.total_size) invalid_download_progress
    ok (record task {
      downloaded_size = report.downloaded_size;
      total_size = report.total_size;
      speed_bytes_per_second = report.speed_bytes_per_second;
      last_progress_at = some now;
      lease_expires_at = some (now + seconds lease_seconds);
    })

  unfoldable pub report_download_progress :
      ℕ
      → ℕ
      → ℕ
      → DownloadProgressRequest
      → ℕ
      → Db
      → Result TaskError (DownloadProgressResponse × Db)
  report_download_progress lease_seconds server id report now db = do
    task ← found (owned_task server id db.downloads) download_task_not_found
    task' ← progress_task lease_seconds report now task
    ok (
      record {
        cancel_requested = is_some task'.cancel_requested_at;
        lease_expires_at = now + seconds lease_seconds;
      },
      record db { downloads = put task_id task' db.downloads },
    )

  -- The checks and the writes of `complete_download_task` on the row.
  unfoldable pub complete_task :
      DownloadTerminalRequest → ℕ → ModelDownloadTask → Result TaskError ModelDownloadTask
  unfolding verify_lease
  complete_task report now task = do
    guard (is_claimed task.status) download_not_active
    verify_lease task.lease_token_hash task.lease_expires_at (digest report.lease_token) now
    guard (path_agrees report.outcome report.final_path task.target_path) download_path_mismatch
    guard (fits report.downloaded_size report.total_size) invalid_download_progress
    ok (record task {
      status = outcome_status report.outcome;
      downloaded_size = report.downloaded_size;
      total_size = report.total_size;
      speed_bytes_per_second = some 0;
      last_progress_at = some now;
      completed_at = some now;
      error_code = safe_text 1_024 report.error_code;
      error_message = safe_text 1_024 report.error_message;
      lease_token_hash = none;
      lease_expires_at = none;
    })

  unfoldable pub complete_download_task :
      ℕ → ℕ → DownloadTerminalRequest → ℕ → Db → Result TaskError (ModelDownloadTask × Db)
  complete_download_task server id report now db = do
    task ← found (owned_task server id db.downloads) download_task_not_found
    task' ← complete_task report now task
    ok (task', record db { downloads = put task_id task' db.downloads })
