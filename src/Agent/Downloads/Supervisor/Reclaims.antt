-- ===== src/Agent/Downloads/Supervisor/Reclaims.antt =====
-- A download that is claimed again after its lease lapsed, as the agent and the central service
-- see it together.
use ai_infra_console.Prelude.{
  ℕ, ◌+◌, ◌<◌, Text, text_eq_refl, ◌≡◌, refl, Bool, true, Option, none, some, List, [], ◌∷◌, leb,
  Result, ok, err, is_some, Option-cases, inl, inr,
}
use ai_infra_console.Json.{ℤ}
use ai_infra_console.Db.{seconds}
use ai_infra_console.Db.Tasks.{ModelDownloadTask}
use ai_infra_console.ModelTasks.Errors.{TaskError, download_progress_regressed}
use ai_infra_console.ModelTasks.Leases.{verify_lease}
use ai_infra_console.ModelTasks.Claims.{lease_download}
use ai_infra_console.ModelTasks.Downloads.{progress_task, is_claimed}
use ai_infra_console.Agent.Downloads.{adds, snapshot, fresh_progress}
use ai_infra_console.Agent.Downloads.Counted.{as_request, received, fresh-IsRefused}
use ai_infra_console.Agent.Downloads.Supervisor.{start_reporting, report_loop}
use ai_infra_console.Agent.Downloads.Supervisor.Cancelling.{report_loop-cancels}

-- The central service's answer to a report, as the agent's client returns it.
abbrev pub answer : Result TaskError ModelDownloadTask → Option Bool
answer (ok t) = some (is_some t.cancel_requested_at)
answer (err e) = none

module _ (rate : ℕ → ℕ → ℕ) (digest : Text → Text) (lease_seconds : ℕ) (token : Text) where
  -- The report at an instant of a counter that was started for this claim.
  abbrev pub reply : ModelDownloadTask → ℕ → List (ℤ × ℕ) → ℕ → Result TaskError ModelDownloadTask
  reply t start chunks now =
      progress_task digest lease_seconds
        (as_request token (snapshot (adds rate chunks (fresh_progress start)))) now t

  pub claimed-status :
      (at : ℕ) (t : ModelDownloadTask)
      → is_claimed (lease_download digest lease_seconds token at t).status ≡ true
  unfolding lease_download
  claimed-status at t = elim (Option-cases t.cancel_requested_at) [
    | inl e ↦ rw e refl
    | inr (at', e) ↦ rw e refl
  ]

  pub claimed-lease :
      (at now : ℕ) (t : ModelDownloadTask)
      → leb now (at + seconds lease_seconds) ≡ true
      → (let leased = lease_download digest lease_seconds token at t in
          verify_lease leased.lease_token_hash leased.lease_expires_at (digest token) now)
        ≡ ok tt
  unfolding lease_download verify_lease
  claimed-lease at now t live = rw (text_eq_refl (digest token), live) refl

  -- A claim keeps the size that the attempt before had reported, and the agent counts from zero:
  -- a report that comes within the lease with fewer bytes than that size is refused.
  pub reclaimed-IsRefused :
      (at start now : ℕ) (chunks : List (ℤ × ℕ)) (t : ModelDownloadTask)
      → leb now (at + seconds lease_seconds) ≡ true
      → received chunks < t.downloaded_size
      → reply (lease_download digest lease_seconds token at t) start chunks now
        ≡ err download_progress_regressed
  unfolding lease_download
  reclaimed-IsRefused at start now chunks t live few =
      fresh-IsRefused rate digest lease_seconds token start now chunks
        (lease_download digest lease_seconds token at t) (claimed-status at t)
        (claimed-lease at now t live) few

  -- Claimed again after a partial attempt, a download whose first three reports come within the
  -- lease and before the bytes of that attempt are fetched again is cancelled by the agent,
  -- though no answer asked for it.
  pub reclaimed-IsCancelled :
      (at start : ℕ) (t : ModelDownloadTask) (now₁ now₂ now₃ : ℕ)
      (chunks₁ chunks₂ chunks₃ : List (ℤ × ℕ))
      → leb now₁ (at + seconds lease_seconds) ≡ true
      → leb now₂ (at + seconds lease_seconds) ≡ true
      → leb now₃ (at + seconds lease_seconds) ≡ true
      → received chunks₁ < t.downloaded_size
      → received chunks₂ < t.downloaded_size
      → received chunks₃ < t.downloaded_size
      → (let leased = lease_download digest lease_seconds token at t in
          (report_loop
            (answer (reply leased start chunks₁ now₁)
              ∷ answer (reply leased start chunks₂ now₂)
              ∷ answer (reply leased start chunks₃ now₃)
              ∷ [])
            start_reporting).cancel_event)
        ≡ true
  reclaimed-IsCancelled at start t now₁ now₂ now₃ chunks₁ chunks₂ chunks₃ l₁ l₂ l₃ f₁ f₂ f₃ =
      rw
        (
          reclaimed-IsRefused at start now₁ chunks₁ t l₁ f₁,
          reclaimed-IsRefused at start now₂ chunks₂ t l₂ f₂,
          reclaimed-IsRefused at start now₃ chunks₃ t l₃ f₃,
        )
        (report_loop-cancels (none ∷ none ∷ none ∷ []))
