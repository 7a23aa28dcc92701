-- ===== src/ModelTasks/DeleteRequests.antt =====
-- `create_delete_task`: an administrator asks for the deletion of an installed model.
use ai_infra_console.Prelude.{
  ℕ, Text, text_eq, Bool, false, ◌&&◌, not, Option, none, some, List, [], ◌∷◌, ◌++◌, ◌==◌, Result,
  ok, guard, found, ◌>>=◌, ◌>>◌, find, exists,
}
use ai_infra_console.Db.{Db}
use ai_infra_console.Db.Inventory.{ServerModelDirectory, Model, ModelFile}
use ai_infra_console.Db.Tasks.{DeleteStatus, ModelDeleteTask}
use ai_infra_console.Db.Deployments.{Deployment}
use ai_infra_console.ModelTasks.Errors.{
  TaskError, model_installation_not_found, delete_confirmation_mismatch, model_directory_mismatch,
  model_installation_in_use, delete_already_active,
}
use ai_infra_console.ModelTasks.Deletions.{is_active_delete, file_id}
use ai_infra_console.ModelTasks.Claims.{directory_key}
use ai_infra_console.ModelTasks.Creation.{eligible_target, model_key}

pub record Installation : Type 0 where
  pub file : ModelFile
  pub model : Model
  pub directory : ServerModelDirectory

join_directory : ModelFile → Model → Option ℕ → List ServerModelDirectory → Option Installation
join_directory file model none directories = none
join_directory file model (some id) directories = elim (find directory_key id directories) [
  | none ↦ none
  | some directory ↦ some (record { file = file; model = model; directory = directory })
]

-- The join of a model file with its model and its directory.
unfoldable pub installation : ℕ → Db → Option Installation
unfolding join_directory
installation id db = elim (find file_id id db.model_files) [
  | none ↦ none
  | some file ↦ elim (find model_key file.model_id db.models) [
    | none ↦ none
    | some model ↦ join_directory file model file.directory_id db.directories
  ]
]

-- `selected_directory.id == model_file.directory_id`
abbrev pub same_directory : ℕ → Option ℕ → Bool
same_directory id none = false
same_directory id (some other) = id == other

abbrev pub is_file : ℕ → Option ℕ → Bool
is_file id none = false
is_file id (some other) = other == id

-- The queries for a deployment of the file and for an active deletion of it.
abbrev pub deploys : ℕ → Deployment → Bool
deploys file deployment = deployment.model_file_id == file

abbrev pub deletes : ℕ → ModelDeleteTask → Bool
deletes file task = is_file file task.model_file_id && is_active_delete task.status

module _ (mutable_server_names : List Text) where
  -- `id` is fresh, `created_at` is the database's `now()`
  unfoldable pub create_delete_task :
      ℕ → Text → ℕ → ℕ → ℕ → Db → Result TaskError (ModelDeleteTask × Db)
  create_delete_task model_file_id confirmation user id created_at db = do
    row ← found (installation model_file_id db) model_installation_not_found
    guard (text_eq confirmation row.model.source_id) delete_confirmation_mismatch
    target ← eligible_target mutable_server_names row.file.server_id row.directory.id db
    guard (same_directory target.1.id row.file.directory_id) model_directory_mismatch
    guard (not (exists (deploys row.file.id) db.deployments)) model_installation_in_use
    guard (not (exists (deletes row.file.id) db.deletions)) delete_already_active
    let task : ModelDeleteTask = record {
      id = id;
      model_file_id = some row.file.id;
      server_id = target.0.id;
      directory_id = some target.1.id;
      requested_by_user_id = some user;
      source = row.model.source;
      source_id = row.model.source_id;
      target_path = row.file.path;
      status = DeleteStatus.queued;
      attempt_count = 0;
      lease_token_hash = none;
      lease_expires_at = none;
      error_code = none;
      error_message = none;
      started_at = none;
      completed_at = none;
      created_at = created_at;
    }
    ok (task, record db { deletions = db.deletions ++ task ∷ [] })
