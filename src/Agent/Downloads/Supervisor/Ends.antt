-- ===== src/Agent/Downloads/Supervisor/Ends.antt =====
-- A download that ends without a result, from its claim to the central service's row.
use ai_infra_console.Prelude.{
  ℕ, ◌+◌, Text, ◌≡◌, refl, true, false, none, some, Bool, List, ok, err, leb,
}
use ai_infra_console.Json.{ℤ}
use ai_infra_console.Db.{seconds}
use ai_infra_console.Db.Tasks.{ModelDownloadTask, DownloadStatus}
use ai_infra_console.ModelTasks.Errors.{download_not_active}
use ai_infra_console.ModelTasks.Claims.{lease_download}
use ai_infra_console.ModelTasks.Downloads.{
  DownloadProgressRequest, DownloadTerminalRequest, path_agrees, is_claimed, fits, complete_task,
  progress_task, outcome_status,
}
use ai_infra_console.Strings.{safe_text}
use ai_infra_console.Agent.Downloads.{DownloadProgress, adds, snapshot, cap}
use ai_infra_console.Agent.Downloads.Counted.{adds-size, adds-fits, received}
use ai_infra_console.Agent.Downloads.Supervisor.{
  Execution, finished, stopped, refused, crashed, terminal_report,
}
use ai_infra_console.Agent.Downloads.Supervisor.Reclaims.{claimed-status, claimed-lease}

-- The execution was stopped, refused or crashed.
abbrev pub has_no_result : Execution → Bool
has_no_result (finished result) = false
has_no_result _ = true

-- A stopped download is cancelled, any other one without a result fails.
abbrev pub status_after : Execution → DownloadStatus
status_after stopped = DownloadStatus.cancelled
status_after _ = DownloadStatus.failed

module _ (rate : ℕ → ℕ → ℕ) (digest : Text → Text) (lease_seconds : ℕ) (token : Text) where
  -- The row after a terminal report.
  abbrev closed : ℕ → DownloadTerminalRequest → ModelDownloadTask → ModelDownloadTask
  closed now end t = record t {
    status = outcome_status end.outcome;
    downloaded_size = end.downloaded_size;
    total_size = end.total_size;
    speed_bytes_per_second = some 0;
    last_progress_at = some now;
    completed_at = some now;
    error_code = safe_text 1_024 end.error_code;
    error_message = safe_text 1_024 end.error_message;
    lease_token_hash = none;
    lease_expires_at = none;
  }

  target_kept :
      (at : ℕ) (t : ModelDownloadTask)
      → (lease_download digest lease_seconds token at t).target_path ≡ t.target_path
  unfolding lease_download
  target_kept at t = refl

  closed-taken :
      (at now : ℕ) (end : DownloadTerminalRequest) (t : ModelDownloadTask)
      → end.lease_token ≡ token
      → path_agrees end.outcome end.final_path t.target_path ≡ true
      → fits end.downloaded_size end.total_size ≡ true
      → leb now (at + seconds lease_seconds) ≡ true
      → complete_task digest end now (lease_download digest lease_seconds token at t)
        ≡ ok (closed now end (lease_download digest lease_seconds token at t))
  unfolding complete_task
  closed-taken at now end t same path size live =
      rw
        (
          claimed-status rate digest lease_seconds token at t,
          same,
          claimed-lease rate digest lease_seconds token at now t live,
          target_kept at t,
          path,
          size,
        )
        refl

  without-result :
      (chunks : List (ℤ × ℕ)) (p : DownloadProgress) (e : Execution) (t : ModelDownloadTask)
      → fits p.downloaded_size p.total_size ≡ true
      → has_no_result e ≡ true
      → (let end = terminal_report token (snapshot (adds rate chunks p)) e in
          (end.lease_token ≡ token)
          × (path_agrees end.outcome end.final_path t.target_path ≡ true)
          × (fits end.downloaded_size end.total_size ≡ true)
          × (end.downloaded_size ≡ cap p.total_size (p.downloaded_size + received chunks))
          × (outcome_status end.outcome ≡ status_after e)
          × (is_claimed (status_after e) ≡ false))
  unfolding terminal_report snapshot
  without-result chunks p (finished result) t h absent = cc
  without-result chunks p stopped t h absent =
      (refl, refl, adds-fits rate chunks p h, (adds-size rate chunks p h).0, refl, refl)
  without-result chunks p (refused code message) t h absent =
      (refl, refl, adds-fits rate chunks p h, (adds-size rate chunks p h).0, refl, refl)
  without-result chunks p crashed t h absent =
      (refl, refl, adds-fits rate chunks p h, (adds-size rate chunks p h).0, refl, refl)

  -- A download that ends without a result before the lease of its claim lapses is closed, whatever
  -- its counter received: the central service takes the supervisor's terminal report, the task is
  -- cancelled if it was stopped and else failed, its size is the one counted, and from then on
  -- every progress report on it is refused.
  pub ended-IsClosed :
      (at now later : ℕ) (chunks : List (ℤ × ℕ)) (p : DownloadProgress) (e : Execution)
      (t : ModelDownloadTask) (report : DownloadProgressRequest)
      → fits p.downloaded_size p.total_size ≡ true
      → has_no_result e ≡ true
      → leb now (at + seconds lease_seconds) ≡ true
      → (t' : ModelDownloadTask) × (complete_task digest
            (terminal_report token (snapshot (adds rate chunks p)) e)
            now
            (lease_download digest lease_seconds token at t)
          ≡ ok t')
        × (t'.status ≡ status_after e)
        × (t'.downloaded_size ≡ cap p.total_size (p.downloaded_size + received chunks))
        × (progress_task digest lease_seconds report later t' ≡ err download_not_active)
  unfolding progress_task
  ended-IsClosed at now later chunks p e t report h absent live =
      let end = terminal_report token (snapshot (adds rate chunks p)) e in
      let (same, path, size, counted, status, over) = without-result chunks p e t h absent in
      (
        closed now end (lease_download digest lease_seconds token at t),
        closed-taken at now end t same path size live,
        status,
        counted,
        rw (status, over) refl,
      )
