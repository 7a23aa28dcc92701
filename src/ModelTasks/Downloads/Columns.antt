-- ===== src/ModelTasks/Downloads/Columns.antt =====
-- What the end of a download writes to its texts.
use ai_infra_console.Prelude.{ℕ, Text, ◌≡◌, ok, >>=-eq-ok, found, subst, sym, arith}
use ai_infra_console.Db.{Db}
use ai_infra_console.Db.Tasks.{ModelDownloadTask}
use ai_infra_console.Strings.{safe_text}
use ai_infra_console.Strings.Laws.{IsWithin, AllClean, safe_text-AllClean}
use ai_infra_console.ModelTasks.Downloads.{
  DownloadTerminalRequest, owned_task, complete_task, complete_download_task,
}
use ai_infra_console.ModelTasks.Errors.{download_task_not_found}

module _ (digest : Text → Text) where
  complete_task-texts :
      (report : DownloadTerminalRequest) (now : ℕ) (t t' : ModelDownloadTask)
      → complete_task digest report now t ≡ ok t'
      → (t'.error_code ≡ safe_text 1_024 report.error_code)
        × (t'.error_message ≡ safe_text 1_024 report.error_message)
  unfolding complete_task
  complete_task-texts report now t t' h = ground arith

  -- A terminal report within the limits of its schema, 64 characters of the code and 1,024 of the
  -- message, that is accepted leaves a code that fits its column of 64 characters, though it is cut
  -- at 1,024, and a message of at most 1,024: each is absent, or not empty and without a control
  -- character.
  pub complete-AllClean :
      (server id now : ℕ) (report : DownloadTerminalRequest) (db db' : Db) (t' : ModelDownloadTask)
      → IsWithin 64 report.error_code
      → IsWithin 1_024 report.error_message
      → complete_download_task digest server id report now db ≡ ok (t', db')
      → AllClean 64 t'.error_code × AllClean 1_024 t'.error_message
  unfolding complete_download_task
  complete-AllClean server id now report db db' t' code message h =
      let (t, there, rest) =
        >>=-eq-ok (found (owned_task server id db.downloads) download_task_not_found) _ h in
      let (u, done, written) = >>=-eq-ok (complete_task digest report now t) _ rest in
      let same : u ≡ t' = cc in
      let (c, m) =
        complete_task-texts report now t t'
          (subst (λ x. complete_task digest report now t ≡ ok x) same done) in
      (
        subst (AllClean 64) (sym c) (safe_text-AllClean 1_024 64 report.error_code code),
        subst (AllClean 1_024) (sym m)
            (safe_text-AllClean 1_024 1_024 report.error_message message),
      )
