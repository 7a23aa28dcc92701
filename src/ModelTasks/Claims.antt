-- ===== src/ModelTasks/Claims.antt =====
-- `claim_model_task`: the agent of a server takes the oldest task that waits, unless the server
-- has a live lease. `lease_token` is what `secrets.token_urlsafe` returns, `digest` is sha256. A
-- claim runs with no other transaction open, so `skip_locked` skips no row; of candidates that
-- were created at the same instant the first row is taken, a download before a deletion.
pub mod Exclusion
pub mod Reports
pub mod Selection
pub mod Fencing
use ai_infra_console.Prelude.{
  ℕ, ◌+◌, Text, text, Bool, true, false, ◌&&◌, ◌||◌, Option, none, some, ◌==◌, leb, is_some,
  or_else, find, put, exists, select, min_by, if◌then◌else◌,
}
use ai_infra_console.Db.{Db, seconds}
use ai_infra_console.Db.Inventory.{ServerModelDirectory}
use ai_infra_console.Db.Tasks.{DownloadStatus, DeleteStatus, ModelDownloadTask, ModelDeleteTask}
use ai_infra_console.ModelTasks.Leases.{unexpired, lapsed}
use ai_infra_console.ModelTasks.Downloads.{is_claimed, task_id}
use ai_infra_console.ModelTasks.Deletions.{is_deleting, delete_id}

-- The queries for a live lease.
abbrev pub holds_download : ℕ → ℕ → ModelDownloadTask → Bool
holds_download server now t =
    t.server_id == server && is_claimed t.status && unexpired t.lease_expires_at now

abbrev pub holds_delete : ℕ → ℕ → ModelDeleteTask → Bool
holds_delete server now t =
    t.server_id == server && is_deleting t.status && unexpired t.lease_expires_at now

abbrev pub is_queued : DownloadStatus → Bool
is_queued DownloadStatus.queued = true
is_queued _ = false

abbrev pub is_queued_delete : DeleteStatus → Bool
is_queued_delete DeleteStatus.queued = true
is_queued_delete _ = false

abbrev pub waits_download : ℕ → ℕ → ModelDownloadTask → Bool
waits_download server now t =
    t.server_id == server
    && (is_queued t.status || (is_claimed t.status && lapsed t.lease_expires_at now))

abbrev pub waits_delete : ℕ → ℕ → ModelDeleteTask → Bool
waits_delete server now t =
    t.server_id == server
    && (is_queued_delete t.status || (is_deleting t.status && lapsed t.lease_expires_at now))

unfoldable pub candidate_download : ℕ → ℕ → Db → Option ModelDownloadTask
candidate_download server now db =
    min_by (λ t. t.created_at) (select (waits_download server now) db.downloads)

unfoldable pub candidate_delete : ℕ → ℕ → Db → Option ModelDeleteTask
candidate_delete server now db =
    min_by (λ t. t.created_at) (select (waits_delete server now) db.deletions)

pub data TaskRow : Type 0 where
  download : ModelDownloadTask → TaskRow
  delete : ModelDeleteTask → TaskRow

-- `min(candidates, key=lambda item: item[0])`, where the download stands first
unfoldable pub select_row : Option ModelDownloadTask → Option ModelDeleteTask → Option TaskRow
select_row none none = none
select_row (some t) none = some (download t)
select_row none (some d) = some (delete d)
select_row (some t) (some d) =
    if leb t.created_at d.created_at then some (download t) else some (delete d)

abbrev pub directory_key : ServerModelDirectory → ℕ
directory_key directory = directory.id

-- The directory of the task, if it may still be used.
unfoldable pub usable_directory : ℕ → Option ℕ → Db → Option ServerModelDirectory
usable_directory server none db = none
usable_directory server (some id) db = elim (find directory_key id db.directories) [
  | none ↦ none
  | some directory ↦
      if directory.server_id == server && directory.is_allowed && directory.is_available
      then some directory
      else none
]

pub record DownloadTaskCommand : Type 0 where
  pub task_id : ℕ
  pub lease_token : Text
  pub root_path : Text
  pub provider : Text
  pub source_id : Text
  pub revision : Text
  pub target_path : Text
  pub cancel_requested : Bool

pub record DeleteTaskCommand : Type 0 where
  pub task_id : ℕ
  pub lease_token : Text
  pub root_path : Text
  pub model_file_id : Option ℕ
  pub source : Text
  pub source_id : Text
  pub target_path : Text

pub data ModelTaskCommand : Type 0 where
  download_command : DownloadTaskCommand → ModelTaskCommand
  delete_command : DeleteTaskCommand → ModelTaskCommand

unfoldable pub fail_download : ℕ → ModelDownloadTask → ModelDownloadTask
fail_download now t = record t {
  status = DownloadStatus.failed;
  error_code = some (text "target_directory_unavailable");
  error_message = some (text "The selected Agent directory is no longer available.");
  completed_at = some now;
}

unfoldable pub fail_delete : ℕ → ModelDeleteTask → ModelDeleteTask
fail_delete now t = record t {
  status = DeleteStatus.failed;
  error_code = some (text "target_directory_unavailable");
  error_message = some (text "The selected Agent directory is no longer available.");
  completed_at = some now;
}

module _ (digest : Text → Text) (lease_seconds : ℕ) (lease_token : Text) where
  unfoldable pub lease_download : ℕ → ModelDownloadTask → ModelDownloadTask
  lease_download now t = record t {
    status =
        if is_some t.cancel_requested_at
        then DownloadStatus.cancelling
        else DownloadStatus.downloading;
    lease_token_hash = some (digest lease_token);
    lease_expires_at = some (now + seconds lease_seconds);
    attempt_count = t.attempt_count + 1;
    started_at = some (or_else t.started_at now);
    completed_at = none;
  }

  unfoldable pub lease_delete : ℕ → ModelDeleteTask → ModelDeleteTask
  lease_delete now t = record t {
    status = DeleteStatus.deleting;
    lease_token_hash = some (digest lease_token);
    lease_expires_at = some (now + seconds lease_seconds);
    attempt_count = t.attempt_count + 1;
    started_at = some (or_else t.started_at now);
    completed_at = none;
  }

  unfoldable pub claim_row : ℕ → ℕ → Option TaskRow → Db → Option ModelTaskCommand × Db
  unfolding fail_download fail_delete lease_download lease_delete
  claim_row server now none db = (none, db)
  claim_row server now (some (download t)) db = elim (usable_directory server t.directory_id db) [
    | none ↦ (none, record db { downloads = put task_id (fail_download now t) db.downloads })
    | some directory ↦ (
      some (
          download_command (record {
            task_id = t.id;
            lease_token = lease_token;
            root_path = directory.path;
            provider = t.source;
            source_id = t.source_id;
            revision = t.revision;
            target_path = t.target_path;
            cancel_requested = is_some t.cancel_requested_at;
          })),
      record db { downloads = put task_id (lease_download now t) db.downloads },
    )
  ]
  claim_row server now (some (delete d)) db = elim (usable_directory server d.directory_id db) [
    | none ↦ (none, record db { deletions = put delete_id (fail_delete now d) db.deletions })
    | some directory ↦ (
      some (
          delete_command (record {
            task_id = d.id;
            lease_token = lease_token;
            root_path = directory.path;
            model_file_id = d.model_file_id;
            source = d.source;
            source_id = d.source_id;
            target_path = d.target_path;
          })),
      record db { deletions = put delete_id (lease_delete now d) db.deletions },
    )
  ]

  unfoldable pub claim_model_task : ℕ → ℕ → Db → Option ModelTaskCommand × Db
  claim_model_task server now db =
      if exists (holds_download server now) db.downloads
        || exists (holds_delete server now) db.deletions
      then (none, db)
      else claim_row server now
          (select_row (candidate_download server now db) (candidate_delete server now db)) db
