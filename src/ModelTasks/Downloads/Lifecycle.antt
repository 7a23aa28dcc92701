-- ===== src/ModelTasks/Downloads/Lifecycle.antt =====
-- The life of a download task: its well-formedness, which every operation keeps, and the
-- transitions that the operations make.
use ai_infra_console.Prelude.{ℕ, Text, ◌≡◌, Bool, true, false, none, arith, is_some, ok}
use ai_infra_console.Db.Tasks.{
  DownloadStatus, ModelDownloadTask, queued, downloading, cancelling, completed, failed, cancelled,
}
use ai_infra_console.ModelTasks.Downloads.{
  cancel_download_task, retry_download_task, progress_task, complete_task, DownloadProgressRequest,
  DownloadTerminalRequest, is_claimed, fits,
}

abbrev pub is_terminal : DownloadStatus → Bool
is_terminal completed = true
is_terminal failed = true
is_terminal cancelled = true
is_terminal _ = false

-- What holds of every stored task.
pub record IsWellFormed (t : ModelDownloadTask) : Type 0 where
  -- a claimed task has its lease and the instant of its first claim
  pub leased : is_claimed t.status ≡ true → is_some t.lease_token_hash ≡ true
  pub expires : is_claimed t.status ≡ true → is_some t.lease_expires_at ≡ true
  pub started : is_claimed t.status ≡ true → is_some t.started_at ≡ true
  -- exactly the finished tasks have an instant of completion
  pub finished : is_some t.completed_at ≡ is_terminal t.status
  -- a queued task has no lease, and no cancellation is pending on it
  pub unleased : t.status ≡ queued → (t.lease_token_hash ≡ none) × (t.lease_expires_at ≡ none)
  pub uncancelled : t.status ≡ queued → t.cancel_requested_at ≡ none
  -- a cancelling task remembers the request, a downloading one has none
  pub requested : t.status ≡ cancelling → is_some t.cancel_requested_at ≡ true
  pub running : t.status ≡ downloading → t.cancel_requested_at ≡ none
  pub bounded : fits t.downloaded_size t.total_size ≡ true

pub cancel-IsWellFormed :
    (t t' : ModelDownloadTask) (now : ℕ)
    → IsWellFormed t
    → cancel_download_task t now ≡ ok t'
    → IsWellFormed t'
unfolding cancel_download_task
cancel-IsWellFormed t t' now w h = ground arith

pub retry-IsWellFormed :
    (t t' : ModelDownloadTask) → IsWellFormed t → retry_download_task t ≡ ok t' → IsWellFormed t'
unfolding retry_download_task
retry-IsWellFormed t t' w h = ground arith

module _ (digest : Text → Text) where
  pub progress-IsWellFormed :
      (lease_seconds now : ℕ) (report : DownloadProgressRequest) (t t' : ModelDownloadTask)
      → IsWellFormed t
      → progress_task digest lease_seconds report now t ≡ ok t'
      → IsWellFormed t'
  unfolding progress_task
  progress-IsWellFormed lease_seconds now report t t' w h = ground arith

  pub complete-IsWellFormed :
      (now : ℕ) (report : DownloadTerminalRequest) (t t' : ModelDownloadTask)
      → IsWellFormed t
      → complete_task digest report now t ≡ ok t'
      → IsWellFormed t'
  unfolding complete_task
  complete-IsWellFormed now report t t' w h = ground arith
