-- ===== src/ModelTasks/Deletions.antt =====
-- The terminal report of a deletion task.
use ai_infra_console.Prelude.{
  ℕ, Text, text, Bool, true, false, Option, none, some, List, ◌==◌, Result, ok, guard, found, ◌>>=◌,
  ◌>>◌, find, put, if◌then◌else◌,
}
use ai_infra_console.Strings.{safe_text}
use ai_infra_console.Db.{Db}
use ai_infra_console.Db.Inventory.{ModelFile}
use ai_infra_console.Db.Tasks.{DeleteStatus, ModelDeleteTask}
use ai_infra_console.ModelTasks.Errors.{TaskError, delete_task_not_found, delete_not_active}
use ai_infra_console.ModelTasks.Leases.{verify_lease}

abbrev pub is_deleting : DeleteStatus → Bool
is_deleting DeleteStatus.deleting = true
is_deleting _ = false

-- `status in ACTIVE_DELETE_STATUSES`
abbrev pub is_active_delete : DeleteStatus → Bool
is_active_delete DeleteStatus.queued = true
is_active_delete DeleteStatus.deleting = true
is_active_delete _ = false

pub data DeleteOutcome : Type 0 where
  completed failed : DeleteOutcome

pub record DeleteTerminalRequest : Type 0 where
  pub lease_token : Text
  pub outcome : DeleteOutcome
  pub error_code : Option Text
  pub error_message : Option Text

abbrev pub delete_id : ModelDeleteTask → ℕ
delete_id task = task.id

abbrev pub file_id : ModelFile → ℕ
file_id file = file.id

abbrev pub owned_delete : ℕ → ℕ → List ModelDeleteTask → Option ModelDeleteTask
owned_delete server id tasks = elim (find delete_id id tasks) [
  | none ↦ none
  | some task ↦ if task.server_id == server then some task else none
]

abbrev pub delete_outcome_status : DeleteOutcome → DeleteStatus
delete_outcome_status completed = DeleteStatus.completed
delete_outcome_status failed = DeleteStatus.failed

-- The installation of a completed deletion is marked as missing, if there still is one.
unfoldable pub mark_missing : DeleteOutcome → Option ℕ → List ModelFile → List ModelFile
mark_missing failed file files = files
mark_missing completed none files = files
mark_missing completed (some id) files = elim (find file_id id files) [
  | none ↦ files
  | some file ↦ put file_id (record file { status = text "missing" }) files
]

module _ (digest : Text → Text) where
  unfoldable pub complete_deletion :
      DeleteTerminalRequest → ℕ → ModelDeleteTask → Result TaskError ModelDeleteTask
  unfolding verify_lease
  complete_deletion report now task = do
    guard (is_deleting task.status) delete_not_active
    verify_lease task.lease_token_hash task.lease_expires_at (digest report.lease_token) now
    ok (record task {
      status = delete_outcome_status report.outcome;
      completed_at = some now;
      error_code = safe_text 1_024 report.error_code;
      error_message = safe_text 1_024 report.error_message;
      lease_token_hash = none;
      lease_expires_at = none;
    })

  unfoldable pub complete_delete_task :
      ℕ → ℕ → DeleteTerminalRequest → ℕ → Db → Result TaskError (ModelDeleteTask × Db)
  complete_delete_task server id report now db = do
    task ← found (owned_delete server id db.deletions) delete_task_not_found
    task' ← complete_deletion report now task
    ok (
      task',
      record db {
        deletions = put delete_id task' db.deletions;
        model_files = mark_missing report.outcome task'.model_file_id db.model_files;
      },
    )
