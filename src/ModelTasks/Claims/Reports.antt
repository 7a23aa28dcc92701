-- ===== src/ModelTasks/Claims/Reports.antt =====
-- No report, cancellation, retry or new task gives a server one more live lease.
use ai_infra_console.Prelude.{
  ℕ, ◌≤◌, Text, ◌≡◌, Bool, true, some, List, ok, arith, find, put, count_by, find-eq_some,
  count_by-put, put-UniqueIds, found-eq-ok, >>=-eq-ok, found,
}
use ai_infra_console.Db.{Db}
use ai_infra_console.Db.Tasks.{ModelDownloadTask, ModelDeleteTask}
use ai_infra_console.ModelTasks.Downloads.{
  task_id, owned_task, progress_task, complete_task, mutate_task, MutateAction, cancel, retry,
  cancel_download_task, retry_download_task, mutate_download, DownloadProgressRequest,
  DownloadProgressResponse, DownloadTerminalRequest, report_download_progress,
  complete_download_task,
}
use ai_infra_console.ModelTasks.Deletions.{
  delete_id, owned_delete, complete_deletion, DeleteTerminalRequest, complete_delete_task,
}
use ai_infra_console.ModelTasks.Claims.{holds_download, holds_delete}
use ai_infra_console.ModelTasks.Claims.Exclusion.{live_leases, HasUniqueIds}

-- A later table of the same rows, in which no server has more live leases.
pub record Settles (now : ℕ) (db db' : Db) : Type 0 where
  pub ids : HasUniqueIds db → HasUniqueIds db'
  pub leases : (server : ℕ) → live_leases server now db' ≤ live_leases server now db

count-put-le :
    {A : Type 0} (id : A → ℕ) (test : A → Bool) (k : ℕ) (row old : A) (xs : List A)
    → find id k xs ≡ some old
    → id row ≡ id old
    → (test row ≡ true → test old ≡ true)
    → count_by test (put id row xs) ≤ count_by test xs
count-put-le id test k row old xs h e keeps =
    let (at_k, m) = find-eq_some id k xs old h in
    let e' : k ≡ id row = cc in ground (arith, count_by-put id test row old xs (rw e' at h), keeps)

put-Settles :
    (now k : ℕ) (db : Db) (t t' : ModelDownloadTask)
    → find task_id k db.downloads ≡ some t
    → t'.id ≡ t.id
    → ((server : ℕ) → holds_download server now t' ≡ true → holds_download server now t ≡ true)
    → Settles now db (record db { downloads = put task_id t' db.downloads })
unfolding live_leases
put-Settles now k db t t' h e keeps = record {
  ids = λ u. record {
    downloads = put-UniqueIds task_id t' db.downloads u.downloads;
    deletions = u.deletions;
  };
  leases = λ server. omega (
    arith,
    count-put-le task_id (holds_download server now) k t' t db.downloads h e (keeps server),
  );
}

put_delete-Settles :
    (now k : ℕ) (db db' : Db) (d d' : ModelDeleteTask)
    → find delete_id k db.deletions ≡ some d
    → db'.downloads ≡ db.downloads
    → db'.deletions ≡ put delete_id d' db.deletions
    → d'.id ≡ d.id
    → ((server : ℕ) → holds_delete server now d' ≡ true → holds_delete server now d ≡ true)
    → Settles now db db'
unfolding live_leases
put_delete-Settles now k db db' d d' h same written e keeps = record {
  ids = λ u. record {
    downloads = rw same u.downloads;
    deletions = rw written (put-UniqueIds delete_id d' db.deletions u.deletions);
  };
  leases = λ server.
      rw (same, written)
        (omega (
          arith,
          count-put-le delete_id (holds_delete server now) k d' d db.deletions h e (keeps server),
        ));
}

owned_task-find :
    (server id : ℕ) (tasks : List ModelDownloadTask) (t : ModelDownloadTask)
    → owned_task server id tasks ≡ some t
    → find task_id id tasks ≡ some t
owned_task-find server id tasks t h = ground arith

owned_delete-find :
    (server id : ℕ) (tasks : List ModelDeleteTask) (d : ModelDeleteTask)
    → owned_delete server id tasks ≡ some d
    → find delete_id id tasks ≡ some d
owned_delete-find server id tasks d h = ground arith

mutate_task-Settles :
    (action : MutateAction) (now : ℕ) (t t' : ModelDownloadTask)
    → mutate_task action t now ≡ ok t'
    → (t'.id ≡ t.id)
      × ((server : ℕ) → holds_download server now t' ≡ true → holds_download server now t ≡ true)
unfolding cancel_download_task retry_download_task
mutate_task-Settles cancel now t t' h = (ground arith, λ server l. ground arith)
mutate_task-Settles retry now t t' h = (ground arith, λ server l. ground arith)

pub mutate_download-Settles :
    (action : MutateAction) (id now : ℕ) (db db' : Db)
    → mutate_download action id now db ≡ ok db'
    → Settles now db db'
unfolding mutate_download
mutate_download-Settles action id now db db' h =
    let (t, at_id, rest) = >>=-eq-ok (found (find task_id id db.downloads) _) _ h in
    let (t', done, written) = >>=-eq-ok (mutate_task action t now) _ rest in
    let (same, keeps) = mutate_task-Settles action now t t' done in
    let e : record db { downloads = put task_id t' db.downloads } ≡ db' = cc in
    rw (← e) (put-Settles now id db t t' (found-eq-ok _ _ at_id) same keeps)

module _ (digest : Text → Text) where
  progress_task-Settles :
      (lease_seconds now : ℕ) (report : DownloadProgressRequest) (t t' : ModelDownloadTask)
      → progress_task digest lease_seconds report now t ≡ ok t'
      → (t'.id ≡ t.id)
        × ((server : ℕ) → holds_download server now t' ≡ true → holds_download server now t ≡ true)
  unfolding progress_task
  progress_task-Settles lease_seconds now report t t' h = (ground arith, λ server l. ground arith)

  complete_task-Settles :
      (now : ℕ) (report : DownloadTerminalRequest) (t t' : ModelDownloadTask)
      → complete_task digest report now t ≡ ok t'
      → (t'.id ≡ t.id)
        × ((server : ℕ) → holds_download server now t' ≡ true → holds_download server now t ≡ true)
  unfolding complete_task
  complete_task-Settles now report t t' h = (ground arith, λ server l. ground arith)

  complete_deletion-Settles :
      (now : ℕ) (report : DeleteTerminalRequest) (d d' : ModelDeleteTask)
      → complete_deletion digest report now d ≡ ok d'
      → (d'.id ≡ d.id)
        × ((server : ℕ) → holds_delete server now d' ≡ true → holds_delete server now d ≡ true)
  unfolding complete_deletion
  complete_deletion-Settles now report d d' h = (ground arith, λ server l. ground arith)

  pub progress-Settles :
      (lease_seconds server id now : ℕ) (report : DownloadProgressRequest)
      (response : DownloadProgressResponse) (db db' : Db)
      → report_download_progress digest lease_seconds server id report now db ≡ ok (response, db')
      → Settles now db db'
  unfolding report_download_progress
  progress-Settles lease_seconds server id now report response db db' h =
      let (t, at_id, rest) = >>=-eq-ok (found (owned_task server id db.downloads) _) _ h in
      let (t', done, written) =
        >>=-eq-ok (progress_task digest lease_seconds report now t) _ rest in
      let (same, keeps) = progress_task-Settles lease_seconds now report t t' done in
      let at : find task_id id db.downloads ≡ some t =
        owned_task-find server id db.downloads t (found-eq-ok _ _ at_id) in
      let e : record db { downloads = put task_id t' db.downloads } ≡ db' = cc in
      rw (← e) (put-Settles now id db t t' at same keeps)

  pub complete-Settles :
      (server id now : ℕ) (report : DownloadTerminalRequest) (r : ModelDownloadTask) (db db' : Db)
      → complete_download_task digest server id report now db ≡ ok (r, db')
      → Settles now db db'
  unfolding complete_download_task
  complete-Settles server id now report r db db' h =
      let (t, at_id, rest) = >>=-eq-ok (found (owned_task server id db.downloads) _) _ h in
      let (t', done, written) = >>=-eq-ok (complete_task digest report now t) _ rest in
      let (same, keeps) = complete_task-Settles now report t t' done in
      let at : find task_id id db.downloads ≡ some t =
        owned_task-find server id db.downloads t (found-eq-ok _ _ at_id) in
      let e : record db { downloads = put task_id t' db.downloads } ≡ db' = cc in
      rw (← e) (put-Settles now id db t t' at same keeps)

  pub complete_deletion_task-Settles :
      (server id now : ℕ) (report : DeleteTerminalRequest) (r : ModelDeleteTask) (db db' : Db)
      → complete_delete_task digest server id report now db ≡ ok (r, db')
      → Settles now db db'
  unfolding complete_delete_task
  complete_deletion_task-Settles server id now report r db db' h =
      let (d, at_id, rest) = >>=-eq-ok (found (owned_delete server id db.deletions) _) _ h in
      let (d', done, written) = >>=-eq-ok (complete_deletion digest report now d) _ rest in
      let (same, keeps) = complete_deletion-Settles now report d d' done in
      let at : find delete_id id db.deletions ≡ some d =
        owned_delete-find server id db.deletions d (found-eq-ok _ _ at_id) in
      put_delete-Settles now id db db' d d' at (ground arith) (ground arith) same keeps
