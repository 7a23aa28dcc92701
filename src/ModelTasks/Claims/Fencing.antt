-- ===== src/ModelTasks/Claims/Fencing.antt =====
-- The token of a claim opens its lease until the lease lapses, and no other token does.
use ai_infra_console.Prelude.{
  ℕ, ◌+◌, ◌≤◌, ◌<◌, Text, text_eq_iff, ◌≡◌, ◌≢◌, refl, true, some, ok, err, arith, put,
}
use ai_infra_console.Db.{Db, seconds}
use ai_infra_console.Db.Tasks.{ModelDownloadTask}
use ai_infra_console.ModelTasks.Errors.{invalid_task_lease, expired_task_lease}
use ai_infra_console.ModelTasks.Downloads.{
  task_id, fits, progress_task, complete_task, DownloadProgressRequest, DownloadTerminalRequest,
  report_download_progress, complete_download_task,
}
use ai_infra_console.ModelTasks.Claims.{
  DownloadTaskCommand, download_command, lease_download, claim_model_task,
}
use ai_infra_console.ModelTasks.Claims.Exclusion.{HasUniqueIds}
use ai_infra_console.ModelTasks.Claims.Selection.{IsClaimed, claim-IsClaimed, claimed-find}

module _ (digest : Text → Text) (lease_seconds : ℕ) (token : Text) where
  progress-other :
      (now later : ℕ) (t : ModelDownloadTask) (report : DownloadProgressRequest)
      → digest report.lease_token ≢ digest token
      → progress_task digest lease_seconds report later
          (lease_download digest lease_seconds token now t)
        ≡ err invalid_task_lease
  unfolding progress_task lease_download
  progress-other now later t report other =
      ground (arith, text_eq_iff (digest token) (digest report.lease_token))

  complete-other :
      (now later : ℕ) (t : ModelDownloadTask) (report : DownloadTerminalRequest)
      → digest report.lease_token ≢ digest token
      → complete_task digest report later (lease_download digest lease_seconds token now t)
        ≡ err invalid_task_lease
  unfolding complete_task lease_download
  complete-other now later t report other =
      ground (arith, text_eq_iff (digest token) (digest report.lease_token))

  -- Fencing: once a download is handed out, a progress report or a terminal report on it whose
  -- token has another digest is refused as an invalid lease, at any later time.
  pub claim-fences :
      (server now later : ℕ) (db db' : Db) (c : DownloadTaskCommand)
      (report : DownloadProgressRequest) (final : DownloadTerminalRequest)
      → HasUniqueIds db
      → claim_model_task digest lease_seconds token server now db ≡ (some (download_command c), db')
      → digest report.lease_token ≢ digest token
      → digest final.lease_token ≢ digest token
      → (report_download_progress digest lease_seconds server c.task_id report later db'
          ≡ err invalid_task_lease)
        × (complete_download_task digest server c.task_id final later db' ≡ err invalid_task_lease)
  unfolding report_download_progress complete_download_task
  claim-fences server now later db db' c report final u h other other' =
      let (t, x) = claim-IsClaimed digest lease_seconds token server now db db' c h in
      let at_row = claimed-find digest lease_seconds token server now db db' c t u x in
      (
        rw (at_row, progress-other now later t report other),
        rw (at_row, complete-other now later t final other'),
      )

  progress-same :
      (now later : ℕ) (t : ModelDownloadTask) (report : DownloadProgressRequest)
      → report.lease_token ≡ token
      → t.downloaded_size ≤ report.downloaded_size
      → fits report.downloaded_size report.total_size ≡ true
      → (later ≤ now + seconds lease_seconds
          → (t' : ModelDownloadTask) × (progress_task digest lease_seconds report later
                (lease_download digest lease_seconds token now t)
              ≡ ok t')
            × (t'.cancel_requested_at ≡ t.cancel_requested_at))
        × (now + seconds lease_seconds < later
            → progress_task digest lease_seconds report later
                (lease_download digest lease_seconds token now t)
              ≡ err expired_task_lease)
  unfolding progress_task lease_download
  progress-same now later t report same grows fit = (
    λ early. (
      record (lease_download digest lease_seconds token now t) {
        downloaded_size = report.downloaded_size;
        total_size = report.total_size;
        speed_bytes_per_second = report.speed_bytes_per_second;
        last_progress_at = some later;
        lease_expires_at = some (later + seconds lease_seconds);
      },
      ground (arith, text_eq_iff (digest token) (digest report.lease_token)),
      refl,
    ),
    λ late. ground (arith, text_eq_iff (digest token) (digest report.lease_token)),
  )

  -- The token of a command is accepted until the lease lapses: a report that does not move back
  -- and fits its total is answered with the command's request to cancel and with a lease that is
  -- renewed from then.
  pub claim-then-progress :
      (server now later : ℕ) (db db' : Db) (c : DownloadTaskCommand) (t : ModelDownloadTask)
      (report : DownloadProgressRequest)
      → HasUniqueIds db
      → IsClaimed digest lease_seconds token server now c t db db'
      → report.lease_token ≡ c.lease_token
      → t.downloaded_size ≤ report.downloaded_size
      → fits report.downloaded_size report.total_size ≡ true
      → later ≤ now + seconds lease_seconds
      → (db'' : Db) × (report_download_progress digest lease_seconds server c.task_id report later
            db'
          ≡ ok (
            record {
              cancel_requested = c.cancel_requested;
              lease_expires_at = later + seconds lease_seconds;
            },
            db'',
          ))
  unfolding report_download_progress
  claim-then-progress server now later db db' c t report u x same grows fit early =
      let at_row = claimed-find digest lease_seconds token server now db db' c t u x in
      let (t', e, cancel) =
        (progress-same now later t report (rw x.names_token at same) grows fit).0 early in
      (
        record db' { downloads = put task_id t' db'.downloads },
        rw (at_row, e, cancel, x.tells_cancel),
      )

  -- The token of a command is refused as expired once the lease has lapsed, whatever the
  -- progress that the report tells of, if it does not move back and fits its total.
  pub claim-then-late :
      (server now later : ℕ) (db db' : Db) (c : DownloadTaskCommand) (t : ModelDownloadTask)
      (report : DownloadProgressRequest)
      → HasUniqueIds db
      → IsClaimed digest lease_seconds token server now c t db db'
      → report.lease_token ≡ c.lease_token
      → t.downloaded_size ≤ report.downloaded_size
      → fits report.downloaded_size report.total_size ≡ true
      → now + seconds lease_seconds < later
      → report_download_progress digest lease_seconds server c.task_id report later db'
        ≡ err expired_task_lease
  unfolding report_download_progress
  claim-then-late server now later db db' c t report u x same grows fit late =
      let at_row = claimed-find digest lease_seconds token server now db db' c t u x in
      rw (at_row, (progress-same now later t report (rw x.names_token at same) grows fit).1 late)
