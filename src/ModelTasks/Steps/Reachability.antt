-- ===== src/ModelTasks/Steps/Reachability.antt =====
-- What holds in every state that the requests can reach.
use ai_infra_console.Prelude.{
  ℕ, ◌≤◌, Text, ◌≡◌, Bool, true, Option, none, some, List, [], ◌∷◌, ◌++◌, ok, arith, to_ℕ,
  Bool-cases, Option-cases, inl, inr, find, count_by, count_by-append, append-UniqueIds,
  put-UniqueIds, exists, ◌||◌,
}
use ai_infra_console.Db.{Db}
use ai_infra_console.Db.Tasks.{DeleteStatus, ModelDownloadTask, ModelDeleteTask}
use ai_infra_console.ModelTasks.Paths.{PurePath}
use ai_infra_console.ModelTasks.Downloads.{task_id}
use ai_infra_console.ModelTasks.Deletions.{delete_id}
use ai_infra_console.ModelTasks.Claims.{
  holds_download, holds_delete, claim_model_task, claim_row, select_row, TaskRow, download, delete,
  usable_directory, candidate_download, candidate_delete,
}
use ai_infra_console.ModelTasks.Claims.Exclusion.{live_leases, HasUniqueIds, claim-live}
use ai_infra_console.ModelTasks.Claims.Reports.{
  Settles, progress-Settles, complete-Settles, complete_deletion_task-Settles,
  mutate_download-Settles,
}
use ai_infra_console.ModelTasks.Creation.Destinations.{IsCreated, create-IsCreated}
use ai_infra_console.ModelTasks.DeleteRequests.{create_delete_task}
use ai_infra_console.ModelTasks.Steps.{
  Central, Step, Reach, wait, claim, progress, complete, complete_deletion, mutate, create,
  create_deletion, here, next,
}

-- The tables have unique ids and no server has two live leases.
pub record IsExclusive (c : Central) : Type 0 where
  pub ids : HasUniqueIds c.db
  pub one_lease : (server : ℕ) → live_leases server c.now c.db ≤ 1

count_by-le :
    {A : Type 0} (p q : A → Bool) (xs : List A)
    → ((x : A) → p x ≡ true → q x ≡ true)
    → count_by p xs ≤ count_by q xs
unfolding count_by
count_by-le p q [] h = omega arith
count_by-le p q (x ∷ xs) h = ground (arith, h x, count_by-le p q xs h)

-- A lease that is live later is live now.
live_leases-later :
    (server now later : ℕ) (db : Db)
    → now ≤ later
    → live_leases server later db ≤ live_leases server now db
unfolding live_leases
live_leases-later server now later db h = omega (
  arith,
  count_by-le (holds_download server later) (holds_download server now) db.downloads
      (λ t l. ground arith),
  count_by-le (holds_delete server later) (holds_delete server now) db.deletions
      (λ d l. ground arith),
)

claim_row-ids :
    (digest : Text → Text) (lease_seconds server now : ℕ) (token : Text) (db : Db)
    (row : Option TaskRow)
    → HasUniqueIds db
    → HasUniqueIds (claim_row digest lease_seconds token server now row db).1
unfolding claim_row
claim_row-ids digest lease_seconds server now token db none u = u
claim_row-ids digest lease_seconds server now token db (some (download t)) u =
    elim (Option-cases (usable_directory server t.directory_id db)) [
      | inl e ↦
          rw (e, claim_row)
            (record {
              downloads = put-UniqueIds task_id _ db.downloads u.downloads;
              deletions = u.deletions;
            })
      | inr (directory, e) ↦
          rw (e, claim_row)
            (record {
              downloads = put-UniqueIds task_id _ db.downloads u.downloads;
              deletions = u.deletions;
            })
    ]
claim_row-ids digest lease_seconds server now token db (some (delete d)) u =
    elim (Option-cases (usable_directory server d.directory_id db)) [
      | inl e ↦
          rw (e, claim_row)
            (record {
              downloads = u.downloads;
              deletions = put-UniqueIds delete_id _ db.deletions u.deletions;
            })
      | inr (directory, e) ↦
          rw (e, claim_row)
            (record {
              downloads = u.downloads;
              deletions = put-UniqueIds delete_id _ db.deletions u.deletions;
            })
    ]

claim-ids :
    (digest : Text → Text) (lease_seconds server now : ℕ) (token : Text) (db : Db)
    → HasUniqueIds db
    → HasUniqueIds (claim_model_task digest lease_seconds token server now db).1
unfolding claim_model_task
claim-ids digest lease_seconds server now token db u =
    elim (Bool-cases (
      exists (holds_download server now) db.downloads
      || exists (holds_delete server now) db.deletions)) [
        | inl busy ↦ rw busy u
        | inr idle ↦ rw idle (
            claim_row-ids digest lease_seconds server now token db
              (select_row (candidate_download server now db) (candidate_delete server now db)) u)
      ]

IsCreated-Settles :
    (now id : ℕ) (t : ModelDownloadTask) (db db' : Db)
    → find task_id id db.downloads ≡ none
    → IsCreated id t db db'
    → Settles now db db'
unfolding live_leases
IsCreated-Settles now id t db db' fresh c = record {
  ids = λ u. record {
    downloads =
        rw c.added (append-UniqueIds task_id t db.downloads (rw c.id_given fresh) u.downloads);
    deletions = rw c.same_deletions u.deletions;
  };
  leases = λ server.
      let idle : to_ℕ (holds_download server now t) ≡ 0 = ground arith in
      rw (c.added, c.same_deletions)
        (omega (arith, idle, count_by-append (holds_download server now) t db.downloads));
}

create_deletion-Settles :
    (names : List Text) (file user id created_at now : ℕ) (confirmation : Text)
    (d : ModelDeleteTask) (db db' : Db)
    → find delete_id id db.deletions ≡ none
    → create_delete_task names file confirmation user id created_at db ≡ ok (d, db')
    → Settles now db db'
unfolding create_delete_task live_leases
create_deletion-Settles names file user id created_at now confirmation d db db' fresh h =
    let given : d.id ≡ id = ground arith in
    let queued : d.status ≡ DeleteStatus.queued = ground arith in
    let added : db'.deletions ≡ db.deletions ++ d ∷ [] = ground arith in
    let same : db'.downloads ≡ db.downloads = ground arith in
    record {
      ids = λ u. record {
        downloads = rw same u.downloads;
        deletions =
            rw added (append-UniqueIds delete_id d db.deletions (rw given fresh) u.deletions);
      };
      leases = λ server.
          let idle : to_ℕ (holds_delete server now d) ≡ 0 = ground arith in
          rw (same, added)
            (omega (arith, idle, count_by-append (holds_delete server now) d db.deletions));
    }

Settles-IsExclusive :
    (c : Central) (db' : Db)
    → IsExclusive c
    → Settles c.now c.db db'
    → IsExclusive (record c { db = db' })
Settles-IsExclusive c db' x s = record {
  ids = s.ids x.ids;
  one_lease = λ server. omega (arith, x.one_lease server, s.leases server);
}

module _ {digest : Text → Text} {parse_windows : Text → PurePath} {names : List Text} where
  pub Step-IsExclusive :
      {c d : Central} → Step digest parse_windows names c d → IsExclusive c → IsExclusive d
  Step-IsExclusive (wait c later h) x = record {
    ids = x.ids;
    one_lease =
        λ server. omega (arith, x.one_lease server, live_leases-later server c.now later c.db h);
  }
  Step-IsExclusive (claim c lease_seconds server token) x = record {
    ids = claim-ids digest lease_seconds server c.now token c.db x.ids;
    one_lease = λ observed.
        claim-live digest lease_seconds token observed server c.now c.db x.ids
          (x.one_lease observed);
  }
  Step-IsExclusive (progress c lease_seconds server id report response db' h) x =
      Settles-IsExclusive c db' x
        (progress-Settles digest lease_seconds server id c.now report response c.db db' h)
  Step-IsExclusive (complete c server id report t db' h) x =
      Settles-IsExclusive c db' x (complete-Settles digest server id c.now report t c.db db' h)
  Step-IsExclusive (complete_deletion c server id report d db' h) x =
      Settles-IsExclusive c db' x
        (complete_deletion_task-Settles digest server id c.now report d c.db db' h)
  Step-IsExclusive (mutate c action id db' h) x =
      Settles-IsExclusive c db' x (mutate_download-Settles action id c.now c.db db' h)
  Step-IsExclusive (create c request user model_id id t db' fresh h) x =
      Settles-IsExclusive c db' x (
        IsCreated-Settles c.now id t c.db db' fresh
          (create-IsCreated parse_windows names request user model_id id c.now t c.db db' h))
  Step-IsExclusive (create_deletion c file confirmation user id d db' fresh h) x =
      Settles-IsExclusive c db' x
        (create_deletion-Settles names file user id c.now c.now confirmation d c.db db' fresh h)

  -- From a state with unique ids where no server has two live leases on model tasks, whatever
  -- requests come, in any order, and however long they wait, only states of this kind are reached.
  pub Reach-IsExclusive :
      {c d : Central} → IsExclusive c → Reach digest parse_windows names c d → IsExclusive d
  Reach-IsExclusive x here = x
  Reach-IsExclusive x (next r s) = Step-IsExclusive s (Reach-IsExclusive x r)
