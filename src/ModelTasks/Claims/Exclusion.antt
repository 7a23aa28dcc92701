-- ===== src/ModelTasks/Claims/Exclusion.antt =====
-- One lease at a time: each operation leaves a server with at most one live lease.
use ai_infra_console.Prelude.{
  ℕ, ◌+◌, ◌≤◌, Text, ◌≡◌, ◌⊎◌, refl, Bool, true, false, ◌||◌, Option, none, some, arith, to_ℕ,
  Bool-cases, Option-cases, subst, inl, inr, Elem, find, put, exists, count_by, UniqueIds,
  exists-eq_false, Elem-select, Elem-min_by, find_self, count_by-put,
}
use ai_infra_console.Db.{Db}
use ai_infra_console.Db.Tasks.{ModelDownloadTask, ModelDeleteTask}
use ai_infra_console.ModelTasks.Downloads.{task_id}
use ai_infra_console.ModelTasks.Deletions.{delete_id}
use ai_infra_console.ModelTasks.Claims.{
  holds_download, holds_delete, candidate_download, candidate_delete, select_row, TaskRow,
  waits_download, waits_delete, download, delete, usable_directory, lease_download, lease_delete,
  fail_download, fail_delete, claim_row, claim_model_task,
}

-- The live leases of a server.
unfoldable pub live_leases : ℕ → ℕ → Db → ℕ
live_leases server now db =
    count_by (holds_download server now) db.downloads
    + count_by (holds_delete server now) db.deletions

-- The rows of `TaskRow` that the claim takes are rows of the tables.
abbrev pub Stored : TaskRow → Db → Type 0
Stored (download t) db = Elem t db.downloads
Stored (delete d) db = Elem d db.deletions

pub candidate_download-Elem :
    (server now : ℕ) (db : Db) (t : ModelDownloadTask)
    → candidate_download server now db ≡ some t
    → (waits_download server now t ≡ true) × Elem t db.downloads
unfolding candidate_download
candidate_download-Elem server now db t h =
    Elem-select (waits_download server now) db.downloads t (Elem-min_by _ _ t h)

pub candidate_delete-Elem :
    (server now : ℕ) (db : Db) (d : ModelDeleteTask)
    → candidate_delete server now db ≡ some d
    → (waits_delete server now d ≡ true) × Elem d db.deletions
unfolding candidate_delete
candidate_delete-Elem server now db d h =
    Elem-select (waits_delete server now) db.deletions d (Elem-min_by _ _ d h)

abbrev pub row_server : TaskRow → ℕ
row_server (download t) = t.server_id
row_server (delete d) = d.server_id

pub select_row-Stored :
    (server now : ℕ) (db : Db) (row : TaskRow)
    → select_row (candidate_download server now db) (candidate_delete server now db) ≡ some row
    → (row_server row ≡ server) × Stored row db
unfolding select_row
select_row-Stored server now db (download t) h =
    let (waits, m) = candidate_download-Elem server now db t (ground arith) in (ground arith, m)
select_row-Stored server now db (delete d) h =
    let (waits, m) = candidate_delete-Elem server now db d (ground arith) in (ground arith, m)

to_ℕ-le_one : (b : Bool) → to_ℕ b ≤ 1
to_ℕ-le_one b = ground arith

pub record HasUniqueIds (db : Db) : Type 0 where
  pub downloads : UniqueIds task_id db.downloads
  pub deletions : UniqueIds delete_id db.deletions

-- Writing one row back adds at most the lease of that row.
put_download_live :
    (server now : ℕ) (db : Db) (t t' : ModelDownloadTask)
    → HasUniqueIds db
    → Elem t db.downloads
    → t'.id ≡ t.id
    → live_leases server now (record db { downloads = put task_id t' db.downloads })
        + to_ℕ (holds_download server now t)
      ≡ live_leases server now db + to_ℕ (holds_download server now t')
unfolding live_leases
put_download_live server now db t t' u m e =
    let at_t : find task_id t'.id db.downloads ≡ some t =
      rw e (find_self task_id db.downloads t u.downloads m) in
    omega (arith, count_by-put task_id (holds_download server now) t' t db.downloads at_t)

put_delete_live :
    (server now : ℕ) (db : Db) (d d' : ModelDeleteTask)
    → HasUniqueIds db
    → Elem d db.deletions
    → d'.id ≡ d.id
    → live_leases server now (record db { deletions = put delete_id d' db.deletions })
        + to_ℕ (holds_delete server now d)
      ≡ live_leases server now db + to_ℕ (holds_delete server now d')
unfolding live_leases
put_delete_live server now db d d' u m e =
    let at_d : find delete_id d'.id db.deletions ≡ some d =
      rw e (find_self delete_id db.deletions d u.deletions m) in
    omega (arith, count_by-put delete_id (holds_delete server now) d' d db.deletions at_d)

put_lease_live :
    (observed now : ℕ) (db : Db) (t t' : ModelDownloadTask)
    → HasUniqueIds db
    → Elem t db.downloads
    → t'.id ≡ t.id
    → live_leases t.server_id now db ≡ 0
    → live_leases observed now db ≤ 1
    → (holds_download observed now t' ≡ false) ⊎ (observed ≡ t.server_id)
    → live_leases observed now (record db { downloads = put task_id t' db.downloads }) ≤ 1
put_lease_live observed now db t t' u m e idle one (inl other) =
    ground (arith, put_download_live observed now db t t' u m e)
put_lease_live observed now db t t' u m e idle one (inr same) = ground (
  arith,
  put_download_live observed now db t t' u m e,
  to_ℕ-le_one (holds_download observed now t'),
)

put_delete_lease_live :
    (observed now : ℕ) (db : Db) (d d' : ModelDeleteTask)
    → HasUniqueIds db
    → Elem d db.deletions
    → d'.id ≡ d.id
    → live_leases d.server_id now db ≡ 0
    → live_leases observed now db ≤ 1
    → (holds_delete observed now d' ≡ false) ⊎ (observed ≡ d.server_id)
    → live_leases observed now (record db { deletions = put delete_id d' db.deletions }) ≤ 1
put_delete_lease_live observed now db d d' u m e idle one (inl other) =
    ground (arith, put_delete_live observed now db d d' u m e)
put_delete_lease_live observed now db d d' u m e idle one (inr same) =
    ground (
      arith,
      put_delete_live observed now db d d' u m e,
      to_ℕ-le_one (holds_delete observed now d'),
    )

swap {ℓ κ} : {A : Type ℓ} {B : Type κ} → A ⊎ B → B ⊎ A
swap (inl a) = inr a
swap (inr b) = inl b

module _ (digest : Text → Text) (lease_seconds : ℕ) (lease_token : Text) where
  -- What the claim writes back counts for no server but the claiming one.
  written_download :
      (observed now : ℕ) (t : ModelDownloadTask)
      → (holds_download observed now (fail_download now t) ≡ false)
        × ((observed ≡ t.server_id)
            ⊎ (holds_download observed now (lease_download digest lease_seconds lease_token now t)
                ≡ false))
  unfolding fail_download lease_download
  written_download observed now t = ground arith

  written_delete :
      (observed now : ℕ) (d : ModelDeleteTask)
      → (holds_delete observed now (fail_delete now d) ≡ false)
        × ((observed ≡ d.server_id)
            ⊎ (holds_delete observed now (lease_delete digest lease_seconds lease_token now d)
                ≡ false))
  unfolding fail_delete lease_delete
  written_delete observed now d = ground arith

  claim_download-live :
      (observed now : ℕ) (db : Db) (t : ModelDownloadTask)
      → HasUniqueIds db
      → Elem t db.downloads
      → live_leases t.server_id now db ≡ 0
      → live_leases observed now db ≤ 1
      → live_leases observed now
          (claim_row digest lease_seconds lease_token t.server_id now (some (download t)) db).1
        ≤ 1
  unfolding claim_row
  claim_download-live observed now db t u m idle one =
      let (failed, leased) = written_download observed now t in
      elim (Option-cases (usable_directory t.server_id t.directory_id db)) [
        | inl e ↦
            rw (e, claim_row)
              (put_lease_live observed now db t (fail_download now t) u m refl idle one
                (inl failed))
        | inr (directory, e) ↦
            rw (e, claim_row)
              (put_lease_live observed now db t
                (lease_download digest lease_seconds lease_token now t) u m refl idle one
                (swap leased))
      ]

  claim_delete-live :
      (observed now : ℕ) (db : Db) (d : ModelDeleteTask)
      → HasUniqueIds db
      → Elem d db.deletions
      → live_leases d.server_id now db ≡ 0
      → live_leases observed now db ≤ 1
      → live_leases observed now
          (claim_row digest lease_seconds lease_token d.server_id now (some (delete d)) db).1
        ≤ 1
  unfolding claim_row
  claim_delete-live observed now db d u m idle one =
      let (failed, leased) = written_delete observed now d in
      elim (Option-cases (usable_directory d.server_id d.directory_id db)) [
        | inl e ↦
            rw (e, claim_row)
              (put_delete_lease_live observed now db d (fail_delete now d) u m refl idle one
                (inl failed))
        | inr (directory, e) ↦
            rw (e, claim_row)
              (put_delete_lease_live observed now db d
                (lease_delete digest lease_seconds lease_token now d) u m refl idle one
                (swap leased))
      ]

  claim_row-live :
      (observed server now : ℕ) (db : Db) (row : Option TaskRow)
      → HasUniqueIds db
      → ((r : TaskRow) → row ≡ some r → (row_server r ≡ server) × Stored r db)
      → live_leases server now db ≡ 0
      → live_leases observed now db ≤ 1
      → live_leases observed now (claim_row digest lease_seconds lease_token server now row db).1
        ≤ 1
  claim_row-live observed server now db none u stored idle one = unfold claim_row in one
  claim_row-live observed server now db (some (download t)) u stored idle one =
      let (e, m) = stored (download t) refl in
      subst
        (λ s.
          live_leases observed now
            (claim_row digest lease_seconds lease_token s now (some (download t)) db).1
          ≤ 1)
        e (claim_download-live observed now db t u m (rw e idle) one)
  claim_row-live observed server now db (some (delete d)) u stored idle one =
      let (e, m) = stored (delete d) refl in
      subst
        (λ s.
          live_leases observed now
            (claim_row digest lease_seconds lease_token s now (some (delete d)) db).1
          ≤ 1)
        e (claim_delete-live observed now db d u m (rw e idle) one)

  idle-live :
      (server now : ℕ) (db : Db)
      → exists (holds_download server now) db.downloads
          || exists (holds_delete server now) db.deletions
        ≡ false
      → live_leases server now db ≡ 0
  unfolding live_leases
  idle-live server now db h = omega (
    arith,
    exists-eq_false (holds_download server now) db.downloads (ground arith),
    exists-eq_false (holds_delete server now) db.deletions (ground arith),
  )

  -- If ids are unique and a server has at most one live lease, it has at most one after a claim
  -- of any server.
  pub claim-live :
      (observed server now : ℕ) (db : Db)
      → HasUniqueIds db
      → live_leases observed now db ≤ 1
      → live_leases observed now (claim_model_task digest lease_seconds lease_token server now db).1
        ≤ 1
  unfolding claim_model_task
  claim-live observed server now db u one =
      elim (Bool-cases (
        exists (holds_download server now) db.downloads
        || exists (holds_delete server now) db.deletions)) [
          | inl busy ↦ rw busy one
          | inr idle ↦ rw idle (
              claim_row-live observed server now db _ u (λ r e. select_row-Stored server now db r e)
                (idle-live server now db idle) one)
        ]
