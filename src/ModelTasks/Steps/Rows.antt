-- ===== src/ModelTasks/Steps/Rows.antt =====
-- Every stored download is well-formed, in every state that the requests can reach.
use ai_infra_console.Prelude.{
  ℕ, Text, ◌≡◌, refl, true, Option, none, some, List, [], ◌∷◌, ◌++◌, ok, arith, find, found,
  found-eq-ok, >>=-eq-ok, put, Elem, find-eq_some, All, Option-cases, inl, inr, Bool-cases, ◌||◌,
  exists, ◌==◌,
}
use ai_infra_console.Db.{Db}
use ai_infra_console.Db.Tasks.{DownloadStatus, ModelDownloadTask, ModelDeleteTask}
use ai_infra_console.ModelTasks.Paths.{PurePath}
use ai_infra_console.ModelTasks.Downloads.{
  task_id, mutate_task, mutate_download, MutateAction, cancel, retry, DownloadProgressRequest,
  DownloadProgressResponse, DownloadTerminalRequest, owned_task, progress_task, complete_task,
  report_download_progress, complete_download_task,
}
use ai_infra_console.ModelTasks.Downloads.Lifecycle.{
  IsWellFormed, cancel-IsWellFormed, retry-IsWellFormed, progress-IsWellFormed,
  complete-IsWellFormed,
}
use ai_infra_console.ModelTasks.Deletions.{DeleteTerminalRequest, complete_delete_task}
use ai_infra_console.ModelTasks.Claims.{
  holds_download, holds_delete, waits_download, candidate_download, candidate_delete, select_row,
  TaskRow, download, delete, usable_directory, fail_download, lease_download, claim_row,
  claim_model_task,
}
use ai_infra_console.ModelTasks.Claims.Exclusion.{candidate_download-Elem}
use ai_infra_console.ModelTasks.Creation.{DownloadCreateRequest, create_download_task}
use ai_infra_console.ModelTasks.DeleteRequests.{create_delete_task}
use ai_infra_console.ModelTasks.Steps.{
  Central, Step, Reach, wait, claim, progress, complete, complete_deletion, mutate, create,
  create_deletion, here, next,
}

module _ {A : Type 0} (P : A → Type 0) where
  All-Elem : (xs : List A) (a : A) → All P xs → Elem a xs → P a
  All-Elem [] a h m = absurd m
  All-Elem (x ∷ xs) a h (inl e) = rw e h.0
  All-Elem (x ∷ xs) a h (inr m) = All-Elem xs a h.1 m

  All-put : (key : A → ℕ) (row : A) (xs : List A) → P row → All P xs → All P (put key row xs)
  unfolding put
  All-put key row [] p h = tt
  All-put key row (x ∷ xs) p h = elim (Bool-cases (key x == key row)) [
    | inl t ↦ rw t (p, h.1)
    | inr f ↦ rw f (h.0, All-put key row xs p h.1)
  ]

  All-append : (row : A) (xs : List A) → P row → All P xs → All P (xs ++ row ∷ [])
  All-append row [] p h = (p, tt)
  All-append row (x ∷ xs) p h = (h.0, All-append row xs p h.1)

-- Every download of the database is well-formed.
unfoldable pub AllWellFormed : Db → Type 0
AllWellFormed db = All IsWellFormed db.downloads

find-IsWellFormed :
    (id : ℕ) (ts : List ModelDownloadTask) (t : ModelDownloadTask)
    → All IsWellFormed ts
    → find task_id id ts ≡ some t
    → IsWellFormed t
find-IsWellFormed id ts t h e = All-Elem IsWellFormed ts t h (find-eq_some task_id id ts t e).1

owned-IsWellFormed :
    (server id : ℕ) (ts : List ModelDownloadTask) (t : ModelDownloadTask)
    → All IsWellFormed ts
    → owned_task server id ts ≡ some t
    → IsWellFormed t
owned-IsWellFormed server id ts t h e = find-IsWellFormed id ts t h (ground arith)

fail-IsWellFormed :
    (server now : ℕ) (t : ModelDownloadTask)
    → waits_download server now t ≡ true
    → IsWellFormed t
    → IsWellFormed (fail_download now t)
unfolding fail_download
fail-IsWellFormed server now t w h = ground arith

lease-IsWellFormed :
    (digest : Text → Text) (lease_seconds server now : ℕ) (token : Text) (t : ModelDownloadTask)
    → waits_download server now t ≡ true
    → IsWellFormed t
    → IsWellFormed (lease_download digest lease_seconds token now t)
unfolding lease_download
lease-IsWellFormed digest lease_seconds server now token t w h = ground arith

mutate_task-IsWellFormed :
    (action : MutateAction) (t t' : ModelDownloadTask) (now : ℕ)
    → IsWellFormed t
    → mutate_task action t now ≡ ok t'
    → IsWellFormed t'
mutate_task-IsWellFormed cancel t t' now w h = cancel-IsWellFormed t t' now w h
mutate_task-IsWellFormed retry t t' now w h = retry-IsWellFormed t t' w h

mutate-AllWellFormed :
    (action : MutateAction) (id now : ℕ) (db db' : Db)
    → AllWellFormed db
    → mutate_download action id now db ≡ ok db'
    → AllWellFormed db'
unfolding mutate_download AllWellFormed
mutate-AllWellFormed action id now db db' w h =
    let (t, there, rest) = >>=-eq-ok (found (find task_id id db.downloads) _) _ h in
    let (t', changed, done) = >>=-eq-ok (mutate_task action t now) _ rest in
    let e : db'.downloads ≡ put task_id t' db.downloads = ground arith in
    rw e (
      All-put IsWellFormed task_id t' db.downloads
        (mutate_task-IsWellFormed action t t' now
          (find-IsWellFormed id db.downloads t w (found-eq-ok _ _ there)) changed)
        w)

select_row-download :
    (server now : ℕ) (db : Db) (t : ModelDownloadTask)
    → select_row (candidate_download server now db) (candidate_delete server now db)
      ≡ some (download t)
    → candidate_download server now db ≡ some t
unfolding select_row
select_row-download server now db t h = ground arith

module _ (digest : Text → Text) where
  progress-AllWellFormed :
      (lease_seconds server id now : ℕ) (report : DownloadProgressRequest)
      (response : DownloadProgressResponse) (db db' : Db)
      → AllWellFormed db
      → report_download_progress digest lease_seconds server id report now db ≡ ok (response, db')
      → AllWellFormed db'
  unfolding report_download_progress AllWellFormed
  progress-AllWellFormed lease_seconds server id now report response db db' w h =
      let (t, there, rest) = >>=-eq-ok (found (owned_task server id db.downloads) _) _ h in
      let (t', changed, done) =
        >>=-eq-ok (progress_task digest lease_seconds report now t) _ rest in
      let e : db'.downloads ≡ put task_id t' db.downloads = ground arith in
      rw e (
        All-put IsWellFormed task_id t' db.downloads
          (progress-IsWellFormed digest lease_seconds now report t t'
            (owned-IsWellFormed server id db.downloads t w (found-eq-ok _ _ there)) changed)
          w)

  complete-AllWellFormed :
      (server id now : ℕ) (report : DownloadTerminalRequest) (r : ModelDownloadTask) (db db' : Db)
      → AllWellFormed db
      → complete_download_task digest server id report now db ≡ ok (r, db')
      → AllWellFormed db'
  unfolding complete_download_task AllWellFormed
  complete-AllWellFormed server id now report r db db' w h =
      let (t, there, rest) = >>=-eq-ok (found (owned_task server id db.downloads) _) _ h in
      let (t', changed, done) = >>=-eq-ok (complete_task digest report now t) _ rest in
      let e : db'.downloads ≡ put task_id t' db.downloads = ground arith in
      rw e (
        All-put IsWellFormed task_id t' db.downloads
          (complete-IsWellFormed digest now report t t'
            (owned-IsWellFormed server id db.downloads t w (found-eq-ok _ _ there)) changed)
          w)

  deletion-AllWellFormed :
      (server id now : ℕ) (report : DeleteTerminalRequest) (r : ModelDeleteTask) (db db' : Db)
      → AllWellFormed db
      → complete_delete_task digest server id report now db ≡ ok (r, db')
      → AllWellFormed db'
  unfolding complete_delete_task AllWellFormed
  deletion-AllWellFormed server id now report r db db' w h =
      let e : db'.downloads ≡ db.downloads = ground arith in rw e w

  module _ (lease_seconds : ℕ) (token : Text) where
    claim_row-AllWellFormed :
        (server now : ℕ) (db : Db) (row : Option TaskRow)
        → AllWellFormed db
        → ((t : ModelDownloadTask)
            → row ≡ some (download t)
            → (waits_download server now t ≡ true) × Elem t db.downloads)
        → AllWellFormed (claim_row digest lease_seconds token server now row db).1
    unfolding claim_row AllWellFormed
    claim_row-AllWellFormed server now db none w waits = w
    claim_row-AllWellFormed server now db (some (download t)) w waits =
        let (waiting, m) = waits t refl in
        let stored = All-Elem IsWellFormed db.downloads t w m in
        elim (Option-cases (usable_directory server t.directory_id db)) [
          | inl gone ↦
              let e : (claim_row digest lease_seconds token server now (some (download t))
                    db).1.downloads
                  ≡ put task_id (fail_download now t) db.downloads =
                rw (claim_row, gone) refl in
              rw e (
                All-put IsWellFormed task_id _ db.downloads
                  (fail-IsWellFormed server now t waiting stored) w)
          | inr (directory, there) ↦
              let e : (claim_row digest lease_seconds token server now (some (download t))
                    db).1.downloads
                  ≡ put task_id (lease_download digest lease_seconds token now t) db.downloads =
                rw (claim_row, there) refl in
              rw e (
                All-put IsWellFormed task_id _ db.downloads
                  (lease-IsWellFormed digest lease_seconds server now token t waiting stored) w)
        ]
    claim_row-AllWellFormed server now db (some (delete d)) w waits =
        let same : (claim_row digest lease_seconds token server now (some (delete d))
              db).1.downloads
            ≡ db.downloads =
          ground arith in
        rw same w

    claim-AllWellFormed :
        (server now : ℕ) (db : Db)
        → AllWellFormed db
        → AllWellFormed (claim_model_task digest lease_seconds token server now db).1
    unfolding claim_model_task
    claim-AllWellFormed server now db w =
        elim (Bool-cases (
          exists (holds_download server now) db.downloads
          || exists (holds_delete server now) db.deletions)) [
            | inl busy ↦ rw busy w
            | inr idle ↦ rw idle (
                claim_row-AllWellFormed server now db _ w (λ t e.
                  candidate_download-Elem server now db t (select_row-download server now db t e)))
          ]

queued-IsWellFormed :
    (t : ModelDownloadTask)
    → t.status ≡ DownloadStatus.queued
    → t.lease_token_hash ≡ none
    → t.lease_expires_at ≡ none
    → t.completed_at ≡ none
    → t.cancel_requested_at ≡ none
    → t.total_size ≡ none
    → IsWellFormed t
queued-IsWellFormed t status token expiry done pending total = ground arith

created-AllWellFormed :
    (parse_windows : Text → PurePath) (names : List Text) (request : DownloadCreateRequest)
    (user model_id id created_at : ℕ) (t : ModelDownloadTask) (db db' : Db)
    → AllWellFormed db
    → create_download_task parse_windows names request user model_id id created_at db ≡ ok (t, db')
    → AllWellFormed db'
unfolding create_download_task AllWellFormed
created-AllWellFormed parse_windows names request user model_id id created_at t db db' w h =
    let status : t.status ≡ DownloadStatus.queued = ground arith in
    let token : t.lease_token_hash ≡ none = ground arith in
    let expiry : t.lease_expires_at ≡ none = ground arith in
    let done : t.completed_at ≡ none = ground arith in
    let pending : t.cancel_requested_at ≡ none = ground arith in
    let total : t.total_size ≡ none = ground arith in
    let e : db'.downloads ≡ db.downloads ++ t ∷ [] = ground arith in
    rw e (
      All-append IsWellFormed t db.downloads
        (queued-IsWellFormed t status token expiry done pending total) w)

create_deletion-AllWellFormed :
    (names : List Text) (file user id created_at : ℕ) (confirmation : Text) (d : ModelDeleteTask)
    (db db' : Db)
    → AllWellFormed db
    → create_delete_task names file confirmation user id created_at db ≡ ok (d, db')
    → AllWellFormed db'
unfolding create_delete_task AllWellFormed
create_deletion-AllWellFormed names file user id created_at confirmation d db db' w h =
    let e : db'.downloads ≡ db.downloads = ground arith in rw e w

module _ {digest : Text → Text} {parse_windows : Text → PurePath} {names : List Text} where
  Step-AllWellFormed :
      {c d : Central}
      → Step digest parse_windows names c d
      → AllWellFormed c.db
      → AllWellFormed d.db
  Step-AllWellFormed (wait c later h) w = w
  Step-AllWellFormed (claim c lease_seconds server token) w =
      claim-AllWellFormed digest lease_seconds token server c.now c.db w
  Step-AllWellFormed (progress c lease_seconds server id report response db' h) w =
      progress-AllWellFormed digest lease_seconds server id c.now report response c.db db' w h
  Step-AllWellFormed (complete c server id report t db' h) w =
      complete-AllWellFormed digest server id c.now report t c.db db' w h
  Step-AllWellFormed (complete_deletion c server id report d db' h) w =
      deletion-AllWellFormed digest server id c.now report d c.db db' w h
  Step-AllWellFormed (mutate c action id db' h) w =
      mutate-AllWellFormed action id c.now c.db db' w h
  Step-AllWellFormed (create c request user model_id id t db' fresh h) w =
      created-AllWellFormed parse_windows names request user model_id id c.now t c.db db' w h
  Step-AllWellFormed (create_deletion c file confirmation user id d db' fresh h) w =
      create_deletion-AllWellFormed names file user id c.now confirmation d c.db db' w h

  -- From a state where every stored download is well-formed, whatever requests come, only states
  -- where every one is are reached. Well-formed are the rows of which exactly the finished ones
  -- have an instant of completion, a claimed one has its lease and the instant of its first claim,
  -- a queued one has neither a lease nor a pending cancellation, and no size exceeds its total.
  pub Reach-AllWellFormed :
      {c d : Central}
      → AllWellFormed c.db
      → Reach digest parse_windows names c d
      → AllWellFormed d.db
  Reach-AllWellFormed w here = w
  Reach-AllWellFormed w (next r s) = Step-AllWellFormed s (Reach-AllWellFormed w r)
