-- ===== src/Scenario/Reports.antt =====
-- The theorems on the agent's reports, applied to a download that is claimed, reported and
-- claimed again.
use ai_infra_console.Agent.Downloads.Supervisor.Ends.{ended-IsClosed}
use ai_infra_console.ModelTasks.Errors.{download_not_active}
use ai_infra_console.Prelude.{
  ℕ, ◌+◌, ◌/◌, text, ◌≡◌, refl, true, none, some, [], ◌∷◌, ok, arith, text_eq, err,
}
use ai_infra_console.Json.{pos, negsuc}
use ai_infra_console.Db.Tasks.{ModelDownloadTask, queued, cancelled}
use ai_infra_console.ModelTasks.Claims.{lease_download}
use ai_infra_console.ModelTasks.Downloads.{progress_task, complete_task}
use ai_infra_console.Agent.Downloads.{DownloadProgress, adds, snapshot, fresh_progress, cap}
use ai_infra_console.Agent.Downloads.Counted.{snapshot-IsAccepted, as_request, reported}
use ai_infra_console.Agent.Downloads.Supervisor.{
  report_loop, start_reporting, stopped, terminal_report,
}
use ai_infra_console.Agent.Downloads.Supervisor.Reclaims.{answer, reply, reclaimed-IsCancelled}
use ai_infra_console.Scenario.{marked}

-- A download that waits, after an attempt that had reported 900 bytes.
abbrev interrupted : ModelDownloadTask
interrupted = record {
  id = 1;
  model_id = some 20;
  server_id = 1;
  directory_id = some 3;
  requested_by_user_id = some 7;
  source = text "huggingface";
  source_id = text "Qwen/Qwen3-8B";
  revision = text "main";
  target_path = text "/models/huggingface/Qwen/Qwen3-8B";
  status = queued;
  downloaded_size = 900;
  total_size = some 1_000;
  speed_bytes_per_second = none;
  attempt_count = 1;
  lease_token_hash = none;
  lease_expires_at = none;
  last_progress_at = none;
  cancel_requested_at = none;
  error_code = none;
  error_message = none;
  started_at = some 5;
  completed_at = none;
  created_at = 5;
}

-- The same before any attempt, and leased at the instant 10.
abbrev leased : ModelDownloadTask
leased = lease_download marked 60 (text "token") 10 (record interrupted { downloaded_size = 0 })

abbrev per_second : ℕ → ℕ → ℕ
per_second count elapsed = count / elapsed

abbrev half_way : DownloadProgress
half_way = record (fresh_progress 0) { downloaded_size = 5; total_size = some 10 }

half_way_taken :
    progress_task marked 60 (as_request (text "token") (snapshot half_way)) 20 leased
    ≡ ok (reported 60 20 (as_request (text "token") (snapshot half_way)) leased)
unfolding progress_task lease_download text_eq text snapshot
half_way_taken = refl

snapshot-IsAccepted_example :
    (t'' : ModelDownloadTask) × (progress_task marked 60
        (as_request
          (text "token")
          (snapshot (adds per_second ((pos 3, 1) ∷ (negsuc 4, 2) ∷ []) half_way)))
        30
        (reported 60 20 (as_request (text "token") (snapshot half_way)) leased)
      ≡ ok t'')
    × (t''.downloaded_size ≡ cap (some 10) (5 + 3))
snapshot-IsAccepted_example =
    snapshot-IsAccepted per_second marked 60 (text "token") 20 30 ((pos 3, 1) ∷ (negsuc 4, 2) ∷ [])
      half_way leased (reported 60 20 (as_request (text "token") (snapshot half_way)) leased) refl
      half_way_taken refl

-- The download is stopped ten seconds after its claim, and reports once more.
ended-IsClosed_example :
    (t' : ModelDownloadTask) × (complete_task marked
        (terminal_report
          (text "token")
          (snapshot (adds per_second ((pos 3, 1) ∷ (negsuc 4, 2) ∷ []) half_way))
          stopped)
        10_000_010
        leased
      ≡ ok t')
    × (t'.status ≡ cancelled)
    × (t'.downloaded_size ≡ cap (some 10) (5 + 3))
    × (progress_task marked 60 (as_request (text "token") (snapshot half_way)) 11_000_000 t'
        ≡ err download_not_active)
ended-IsClosed_example =
    ended-IsClosed per_second marked 60 (text "token") 10 10_000_010 11_000_000
      ((pos 3, 1) ∷ (negsuc 4, 2) ∷ []) half_way stopped
      (record interrupted { downloaded_size = 0 }) (as_request (text "token") (snapshot half_way))
      refl refl refl

reclaimed-IsCancelled_example :
    (report_loop
      (answer (
          reply per_second marked 60
            (text "token")
            (lease_download marked 60 (text "token") 10 interrupted)
            10
            []
            12)
        ∷ answer (
            reply per_second marked 60
              (text "token")
              (lease_download marked 60 (text "token") 10 interrupted)
              10
              ((pos 100, 13) ∷ [])
              14)
        ∷ answer (
            reply per_second marked 60
              (text "token")
              (lease_download marked 60 (text "token") 10 interrupted)
              10
              ((pos 300, 13) ∷ [])
              16)
        ∷ [])
      start_reporting).cancel_event
    ≡ true
reclaimed-IsCancelled_example =
    reclaimed-IsCancelled per_second marked 60 (text "token") 10 10 interrupted 12 14 16 []
      ((pos 100, 13) ∷ []) ((pos 300, 13) ∷ []) refl refl refl (omega arith) (omega arith)
      (omega arith)
