-- ===== src/ModelTasks/Steps.antt =====
-- The tasks of the model service as a transition system: time passes, agents claim, report and
-- complete, administrators queue, cancel and retry, in any order and for any servers.
pub mod Reachability
pub mod Rows
use ai_infra_console.Prelude.{ℕ, ◌≤◌, Text, ◌≡◌, Option, none, List, ok, find}
use ai_infra_console.Db.{Db}
use ai_infra_console.Db.Tasks.{ModelDownloadTask, ModelDeleteTask}
use ai_infra_console.ModelTasks.Paths.{PurePath}
use ai_infra_console.ModelTasks.Downloads.{
  MutateAction, mutate_download, DownloadProgressRequest, DownloadProgressResponse,
  DownloadTerminalRequest, report_download_progress, complete_download_task, task_id,
}
use ai_infra_console.ModelTasks.Deletions.{DeleteTerminalRequest, complete_delete_task, delete_id}
use ai_infra_console.ModelTasks.Claims.{claim_model_task}
use ai_infra_console.ModelTasks.Creation.{DownloadCreateRequest, create_download_task}
use ai_infra_console.ModelTasks.DeleteRequests.{create_delete_task}

-- The clock and the committed database.
pub record Central : Type 0 where
  pub now : ℕ
  pub db : Db

module _ (digest : Text → Text) (parse_windows : Text → PurePath) (names : List Text) where
  -- A committed request, or the passing of time. New rows have fresh ids.
  pub data Step : Central → Central → Type 0 where
    wait : (c : Central) (later : ℕ) → c.now ≤ later → Step c (record c { now = later })
    claim :
        (c : Central) (lease_seconds server : ℕ) (token : Text)
        → Step c
            (record c { db = (claim_model_task digest lease_seconds token server c.now c.db).1 })
    progress :
        (c : Central) (lease_seconds server id : ℕ) (report : DownloadProgressRequest)
        (response : DownloadProgressResponse) (db' : Db)
        → report_download_progress digest lease_seconds server id report c.now c.db
          ≡ ok (response, db')
        → Step c (record c { db = db' })
    complete :
        (c : Central) (server id : ℕ) (report : DownloadTerminalRequest) (t : ModelDownloadTask)
        (db' : Db)
        → complete_download_task digest server id report c.now c.db ≡ ok (t, db')
        → Step c (record c { db = db' })
    complete_deletion :
        (c : Central) (server id : ℕ) (report : DeleteTerminalRequest) (d : ModelDeleteTask)
        (db' : Db)
        → complete_delete_task digest server id report c.now c.db ≡ ok (d, db')
        → Step c (record c { db = db' })
    mutate :
        (c : Central) (action : MutateAction) (id : ℕ) (db' : Db)
        → mutate_download action id c.now c.db ≡ ok db'
        → Step c (record c { db = db' })
    create :
        (c : Central) (request : DownloadCreateRequest) (user model_id id : ℕ)
        (t : ModelDownloadTask) (db' : Db)
        → find task_id id c.db.downloads ≡ none
        → create_download_task parse_windows names request user model_id id c.now c.db ≡ ok (t, db')
        → Step c (record c { db = db' })
    create_deletion :
        (c : Central) (file : ℕ) (confirmation : Text) (user id : ℕ) (d : ModelDeleteTask)
        (db' : Db)
        → find delete_id id c.db.deletions ≡ none
        → create_delete_task names file confirmation user id c.now c.db ≡ ok (d, db')
        → Step c (record c { db = db' })

  pub data Reach (s : Central) : Central → Type 0 where
    here : Reach s s
    next : {c d : Central} → Reach s c → Step c d → Reach s d
