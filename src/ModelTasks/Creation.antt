-- ===== src/ModelTasks/Creation.antt =====
-- An administrator asks for the download of a model: `_eligible_target` and
-- `create_download_task`. The ids of the new rows are what `uuid4` returns.
pub mod Destinations
use ai_infra_console.Prelude.{
  ℕ, Text, text_eq, Bool, true, false, ◌&&◌, not, Option, none, some, List, [], ◌∷◌, ◌++◌, ◌==◌,
  is_some, Result, ok, guard, found, ◌>>=◌, ◌>>◌, find, first, exists, text, if◌then◌else◌,
}
use mathlib.Core.List.{reverse}
use ai_infra_console.Db.{Db}
use ai_infra_console.Db.Inventory.{Server, ServerAgent, ServerModelDirectory, Model, ModelFile}
use ai_infra_console.Db.Tasks.{DownloadStatus, DeleteStatus, ModelDownloadTask, ModelDeleteTask}
use ai_infra_console.ModelTasks.Errors.{
  TaskError, server_not_found, server_mutation_not_allowed, server_offline, agent_unavailable,
  model_directory_not_selectable, download_already_active, model_already_installed,
  model_installation_not_found, delete_confirmation_mismatch, model_directory_mismatch,
  model_installation_in_use, delete_already_active,
}
use ai_infra_console.ModelTasks.Paths.{PurePath, ModelProvider, provider_text, build_target_path}
use ai_infra_console.ModelTasks.Downloads.{is_active_download, task_id}
use ai_infra_console.ModelTasks.Deletions.{is_active_delete, file_id}
use ai_infra_console.ModelTasks.Claims.{directory_key}

abbrev pub server_key : Server → ℕ
server_key server = server.id

abbrev pub model_key : Model → ℕ
model_key model = model.id

-- `name in settings.mutable_server_names`
pub contains : Text → List Text → Bool
contains name [] = false
contains name (other ∷ others) = if text_eq name other then true else contains name others

-- the query for an active agent: it has a token, which was not revoked
pub is_active_agent : ℕ → ServerAgent → Bool
is_active_agent server agent =
    agent.server_id == server && is_some agent.token_hash && not (is_some agent.revoked_at)

-- the query for a directory that a task may write to
pub is_selectable : ℕ → ℕ → ServerModelDirectory → Bool
is_selectable server id directory =
    directory.id == id
    && directory.server_id == server
    && directory.is_allowed
    && directory.is_available

unfoldable pub eligible_target :
    List Text → ℕ → ℕ → Db → Result TaskError (Server × ServerModelDirectory)
unfolding contains is_active_agent is_selectable
eligible_target mutable_server_names server_id directory_id db = do
  server ← found (find server_key server_id db.servers) server_not_found
  guard (contains server.name mutable_server_names) server_mutation_not_allowed
  guard (text_eq server.status (text "online")) server_offline
  guard (exists (is_active_agent server.id) db.server_agents) agent_unavailable
  directory ←
      found (first (is_selectable server.id directory_id) db.directories)
        model_directory_not_selectable
  ok (server, directory)

-- the query for a task that owns the destination
abbrev pub owns : ℕ → Text → ModelDownloadTask → Bool
owns server path t =
    t.server_id == server && text_eq t.target_path path && is_active_download t.status

pub revision_is : Text → Option Text → Bool
revision_is revision none = false
revision_is revision (some other) = text_eq other revision

pub is_installed : ℕ → Text → Text → ModelFile → Bool
unfolding revision_is
is_installed server path revision file =
    file.server_id == server
    && text_eq file.path path
    && revision_is revision file.revision
    && text_eq file.status (text "discovered")

pub is_model : Text → Text → Model → Bool
is_model source source_id model = text_eq model.source source && text_eq model.source_id source_id

-- `source_id.rsplit("/", 1)[-1]`: what follows the last slash
pub after_slash : Text → Text → Text
after_slash kept [] = kept
after_slash kept (c ∷ s) = after_slash (if c == b'/' then s else kept) s

pub record DownloadCreateRequest : Type 0 where
  pub provider : ModelProvider
  pub source_id : Text
  pub revision : Text
  pub server_id : ℕ
  pub directory_id : ℕ

-- The model of the request, and the table of models with it.
unfoldable pub model_of : DownloadCreateRequest → ℕ → List Model → ℕ × List Model
unfolding is_model after_slash
model_of request model_id models =
    elim (first (is_model (provider_text request.provider) request.source_id) models) [
      | some model ↦ (model.id, models)
      | none ↦ (
        model_id,
        models
            ++ record {
              id = model_id;
              source = provider_text request.provider;
              source_id = request.source_id;
              name = request.source_id;
              display_name = some (after_slash request.source_id request.source_id);
            }
              ∷ [],
      )
    ]

module _ (parse_windows : Text → PurePath) (mutable_server_names : List Text) where
  -- `model_id` and `id` are fresh, `created_at` is the database's `now()`
  unfoldable pub create_download_task :
      DownloadCreateRequest → ℕ → ℕ → ℕ → ℕ → Db → Result TaskError (ModelDownloadTask × Db)
  unfolding is_installed
  create_download_task request user model_id id created_at db = do
    target ← eligible_target mutable_server_names request.server_id request.directory_id db
    target_path ← build_target_path parse_windows target.1.path request.provider request.source_id
    guard (not (exists (owns target.0.id target_path) db.downloads)) download_already_active
    guard (not (exists (is_installed target.0.id target_path request.revision) db.model_files))
        model_already_installed
    let task : ModelDownloadTask = record {
      id = id;
      model_id = some (model_of request model_id db.models).0;
      server_id = target.0.id;
      directory_id = some target.1.id;
      requested_by_user_id = some user;
      source = provider_text request.provider;
      source_id = request.source_id;
      revision = request.revision;
      target_path = target_path;
      status = DownloadStatus.queued;
      downloaded_size = 0;
      total_size = none;
      speed_bytes_per_second = none;
      attempt_count = 0;
      lease_token_hash = none;
      lease_expires_at = none;
      last_progress_at = none;
      cancel_requested_at = none;
      error_code = none;
      error_message = none;
      started_at = none;
      completed_at = none;
      created_at = created_at;
    }
    ok (
      task,
      record db {
        models = (model_of request model_id db.models).1;
        downloads = db.downloads ++ task ∷ [];
      },
    )
