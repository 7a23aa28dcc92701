-- ===== src/ModelTasks/Creation/Destinations.antt =====
-- Who owns a destination: the active downloads with this server and target path.
use ai_infra_console.Prelude.{
  ℕ, ◌+◌, ◌≤◌, Text, text_eq_iff, ◌≡◌, refl, ◌↔◌, true, false, none, some, List, [], ◌∷◌, ◌++◌, ok,
  arith, to_ℕ, find, put, exists, count_by, find-eq_some, count_by-put, count_by-append,
  exists-eq_false, >>=-eq-ok, subst, ap, Bool-cases, inl, inr,
}
use ai_infra_console.Db.{Db}
use ai_infra_console.Db.Tasks.{DownloadStatus, ModelDownloadTask}
use ai_infra_console.ModelTasks.Paths.{PurePath, build_target_path}
use ai_infra_console.ModelTasks.Downloads.{
  task_id, mutate_download, retry_download_task, retry, requeued, is_active_download, is_retryable,
}
use ai_infra_console.ModelTasks.Creation.{
  owns, DownloadCreateRequest, create_download_task, eligible_target,
}

-- The active downloads that own a destination.
unfoldable pub owners : ℕ → Text → Db → ℕ
owners server path db = count_by (owns server path) db.downloads

-- What a successful creation has checked and written.
pub record IsCreated (id : ℕ) (t : ModelDownloadTask) (db db' : Db) : Type 0 where
  pub id_given : t.id ≡ id
  pub queued : t.status ≡ DownloadStatus.queued
  pub unleased : (t.lease_token_hash ≡ none) × (t.lease_expires_at ≡ none)
  pub unowned : exists (owns t.server_id t.target_path) db.downloads ≡ false
  pub added : db'.downloads ≡ db.downloads ++ t ∷ []
  pub same_deletions : db'.deletions ≡ db.deletions

module _ (parse_windows : Text → PurePath) (names : List Text) where
  created-target :
      (request : DownloadCreateRequest) (user model_id id created_at : ℕ) (t : ModelDownloadTask)
      (db db' : Db)
      → create_download_task parse_windows names request user model_id id created_at db
        ≡ ok (t, db')
      → (server : ℕ) × (path : Text) × (t.server_id ≡ server)
        × (t.target_path ≡ path)
        × (exists (owns server path) db.downloads ≡ false)
  unfolding create_download_task
  created-target request user model_id id created_at t db db' h =
      let (target, eligible, rest) =
        >>=-eq-ok (eligible_target names request.server_id request.directory_id db) _ h in
      let (path, built, rest2) =
        >>=-eq-ok (build_target_path parse_windows target.1.path request.provider request.source_id)
          _ rest in
      (target.0.id, path, ground arith, ground arith, ground arith)

  pub create-IsCreated :
      (request : DownloadCreateRequest) (user model_id id created_at : ℕ) (t : ModelDownloadTask)
      (db db' : Db)
      → create_download_task parse_windows names request user model_id id created_at db
        ≡ ok (t, db')
      → IsCreated id t db db'
  unfolding create_download_task
  create-IsCreated request user model_id id created_at t db db' h = record {
    id_given = ground arith;
    queued = ground arith;
    unleased = (ground arith, ground arith);
    unowned =
        let (server, path, e, e', free) =
          created-target request user model_id id created_at t db db' h in
        rw (e, e') free;
    added = ground arith;
    same_deletions = ground arith;
  }

owns_iff :
    (server : ℕ) (path : Text) (t : ModelDownloadTask)
    → (owns server path t ≡ true)
      ↔ ((t.server_id ≡ server) × (t.target_path ≡ path) × (is_active_download t.status ≡ true))
owns_iff server path t = (
  λ h. (ground arith, ground (arith, text_eq_iff t.target_path path), ground arith),
  λ (e, e', a). ground (arith, text_eq_iff t.target_path path),
)

IsCreated-owners :
    (id : ℕ) (t : ModelDownloadTask) (db db' : Db)
    → IsCreated id t db db'
    → (owners t.server_id t.target_path db ≡ 0)
      × (owners t.server_id t.target_path db' ≡ 1)
      × ((server : ℕ) (path : Text) → owners server path db ≤ 1 → owners server path db' ≤ 1)
unfolding owners
IsCreated-owners id t db db' c =
    let free : count_by (owns t.server_id t.target_path) db.downloads ≡ 0 =
      exists-eq_false (owns t.server_id t.target_path) db.downloads c.unowned in
    (
      free,
      rw c.added (
          omega (
            arith,
            free,
            count_by-append (owns t.server_id t.target_path) t db.downloads,
            ap to_ℕ ((owns_iff t.server_id t.target_path t).1 (refl, refl, rw c.queued refl)),
          )),
      λ server path one. rw c.added (
          rw (count_by-append (owns server path) t db.downloads)
            (elim (Bool-cases (owns server path t)) [
              | inl mine ↦
                  let (e, e', a) = (owns_iff server path t).0 mine in
                  let none_yet : count_by (owns server path) db.downloads ≡ 0 =
                    subst (λ p. count_by (owns server p) db.downloads ≡ 0) e'
                      (subst (λ k. count_by (owns k t.target_path) db.downloads ≡ 0) e free) in
                  omega (arith, none_yet, ap to_ℕ mine)
              | inr other ↦ omega (arith, ap to_ℕ other)
            ])),
    )

module _ (parse_windows : Text → PurePath) (names : List Text) where
  -- A download that is created takes a destination that no active download owned, becomes its
  -- one owner, and leaves every destination that had at most one owner with at most one.
  pub create-owners :
      (request : DownloadCreateRequest) (user model_id id created_at server : ℕ) (path : Text)
      (t : ModelDownloadTask) (db db' : Db)
      → create_download_task parse_windows names request user model_id id created_at db
        ≡ ok (t, db')
      → owners server path db ≤ 1
      → (owners t.server_id t.target_path db ≡ 0)
        × (owners t.server_id t.target_path db' ≡ 1)
        × (owners server path db' ≤ 1)
  create-owners request user model_id id created_at server path t db db' h one =
      let (free, mine, others) =
        IsCreated-owners id t db db'
          (create-IsCreated parse_windows names request user model_id id created_at t db db' h) in
      (free, mine, others server path one)

-- A retry makes its task an owner again without looking for another one, so where an active
-- download owns the destination of a failed or cancelled task, its retry leaves two owners.
pub retry-owners :
    (id now : ℕ) (t : ModelDownloadTask) (db : Db)
    → find task_id id db.downloads ≡ some t
    → is_retryable t.status ≡ true
    → (db' : Db) × (mutate_download retry id now db ≡ ok db')
      × (owners t.server_id t.target_path db' ≡ owners t.server_id t.target_path db + 1)
unfolding owners mutate_download retry_download_task
retry-owners id now t db h r =
    let row = requeued t in
    let (at_id, m) = find-eq_some task_id id db.downloads t h in
    let inactive : to_ℕ (owns t.server_id t.target_path t) ≡ 0 = ground arith in
    let active : to_ℕ (owns t.server_id t.target_path row) ≡ 1 =
      ap to_ℕ ((owns_iff t.server_id t.target_path row).1 (refl, refl, refl)) in
    (
      record db { downloads = put task_id row db.downloads },
      rw (h, r),
      omega (
        arith,
        inactive,
        active,
        count_by-put task_id (owns t.server_id t.target_path) row t db.downloads
            (rw (← at_id) at h),
      ),
    )
