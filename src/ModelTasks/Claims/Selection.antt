-- ===== src/ModelTasks/Claims/Selection.antt =====
-- What a claim hands out: the oldest waiting task, under a lease that its token opens and that
-- every other token is refused.
use ai_infra_console.Prelude.{
  ℕ, ◌≤◌, Text, ◌≡◌, refl, true, ◌||◌, Option, none, some, arith, Bool-cases, Option-cases, inl,
  inr, Elem, find, put, exists, select, find_self, find-put, select-Elem, min_by-le, min_by-ne_none,
  is_some,
}
use native.Mathlib.Nat.{le_trans}
use ai_infra_console.Db.{Db}
use ai_infra_console.Db.Tasks.{ModelDownloadTask, ModelDeleteTask}
use ai_infra_console.ModelTasks.Downloads.{task_id, owned_task}
use ai_infra_console.ModelTasks.Claims.{
  waits_download, waits_delete, candidate_download, candidate_delete, select_row, TaskRow, download,
  delete, DownloadTaskCommand, download_command, lease_download, claim_row, claim_model_task,
  holds_download, holds_delete,
}
use ai_infra_console.ModelTasks.Claims.Exclusion.{HasUniqueIds, candidate_download-Elem}

-- A download that was handed out, and the database after it.
pub record IsClaimed (digest : Text → Text) (lease_seconds : ℕ) (token : Text) (server now : ℕ)
    (command : DownloadTaskCommand) (t : ModelDownloadTask) (db db' : Db) : Type 0 where
  pub waited : waits_download server now t ≡ true
  pub stored : Elem t db.downloads
  pub oldest :
      (u : ModelDownloadTask)
      → Elem u db.downloads
      → waits_download server now u ≡ true
      → t.created_at ≤ u.created_at
  pub before_deletions :
      (d : ModelDeleteTask)
      → Elem d db.deletions
      → waits_delete server now d ≡ true
      → t.created_at ≤ d.created_at
  pub names_task : command.task_id ≡ t.id
  pub names_token : command.lease_token ≡ token
  pub same_target : command.target_path ≡ t.target_path
  pub tells_cancel : command.cancel_requested ≡ is_some t.cancel_requested_at
  pub leased : db' ≡ record db {
    downloads = put task_id (lease_download digest lease_seconds token now t) db.downloads;
  }

candidate_download-le :
    (server now : ℕ) (db : Db) (t u : ModelDownloadTask)
    → candidate_download server now db ≡ some t
    → Elem u db.downloads
    → waits_download server now u ≡ true
    → t.created_at ≤ u.created_at
unfolding candidate_download
candidate_download-le server now db t u h m w =
    min_by-le (λ t. t.created_at) (select (waits_download server now) db.downloads) t u h
      (select-Elem (waits_download server now) db.downloads u m w)

candidate_delete-le :
    (server now : ℕ) (db : Db) (d e : ModelDeleteTask)
    → candidate_delete server now db ≡ some d
    → Elem e db.deletions
    → waits_delete server now e ≡ true
    → d.created_at ≤ e.created_at
unfolding candidate_delete
candidate_delete-le server now db d e h m w =
    min_by-le (λ d. d.created_at) (select (waits_delete server now) db.deletions) d e h
      (select-Elem (waits_delete server now) db.deletions e m w)

candidate_delete-none :
    (server now : ℕ) (db : Db) (e : ModelDeleteTask)
    → candidate_delete server now db ≡ none
    → Elem e db.deletions
    → waits_delete server now e ≡ true
    → ⊥
unfolding candidate_delete
candidate_delete-none server now db e h m w =
    min_by-ne_none (λ d. d.created_at) (select (waits_delete server now) db.deletions) e h
      (select-Elem (waits_delete server now) db.deletions e m w)

-- A selected download is not younger than the candidate for deletion.
select_row-download :
    (o : Option ModelDownloadTask) (p : Option ModelDeleteTask) (t : ModelDownloadTask)
    → select_row o p ≡ some (download t)
    → (o ≡ some t) × ((d : ModelDeleteTask) → p ≡ some d → t.created_at ≤ d.created_at)
unfolding select_row
select_row-download none none t h = cc
select_row-download (some u) none t h = (ground arith, λ d e. cc)
select_row-download none (some d) t h = cc
select_row-download (some u) (some d) t h = (ground arith, λ e q. ground arith)

module _ (digest : Text → Text) (lease_seconds : ℕ) (token : Text) where
  claim_row-delete :
      (server now : ℕ) (d : ModelDeleteTask) (db db' : Db) (c : DownloadTaskCommand)
      → claim_row digest lease_seconds token server now (some (delete d)) db
        ≡ (some (download_command c), db')
      → ⊥
  unfolding claim_row
  claim_row-delete server now d db db' c h = ground arith

  claim_row-download :
      (server now : ℕ) (t : ModelDownloadTask) (db db' : Db) (c : DownloadTaskCommand)
      → claim_row digest lease_seconds token server now (some (download t)) db
        ≡ (some (download_command c), db')
      → (c.task_id ≡ t.id)
        × (c.lease_token ≡ token)
        × (c.target_path ≡ t.target_path)
        × (c.cancel_requested ≡ is_some t.cancel_requested_at)
        × (db' ≡ record db {
          downloads = put task_id (lease_download digest lease_seconds token now t) db.downloads;
        })
  unfolding claim_row
  claim_row-download server now t db db' c h =
      (ground arith, ground arith, ground arith, ground arith, ground arith)

  row-IsClaimed :
      (server now : ℕ) (row : Option TaskRow) (db db' : Db) (c : DownloadTaskCommand)
      → select_row (candidate_download server now db) (candidate_delete server now db) ≡ row
      → claim_row digest lease_seconds token server now row db ≡ (some (download_command c), db')
      → (t : ModelDownloadTask) × IsClaimed digest lease_seconds token server now c t db db'
  row-IsClaimed server now none db db' c e h = absurd (unfold claim_row in ground arith)
  row-IsClaimed server now (some (delete d)) db db' c e h =
      absurd (claim_row-delete server now d db db' c h)
  row-IsClaimed server now (some (download t)) db db' c e h =
      let (taken, before) = select_row-download _ _ t e in
      let (waits, m) = candidate_download-Elem server now db t taken in
      let (task, tok, target, cancel, written) = claim_row-download server now t db db' c h in
      (
        t,
        record {
          waited = waits;
          stored = m;
          oldest = λ u n w. candidate_download-le server now db t u taken n w;
          before_deletions = λ d n w. elim (Option-cases (candidate_delete server now db)) [
            | inl e ↦ absurd (candidate_delete-none server now db d e n w)
            | inr (f, e) ↦ le_trans (before f e) (candidate_delete-le server now db f d e n w)
          ];
          names_task = task;
          names_token = tok;
          same_target = target;
          tells_cancel = cancel;
          leased = written;
        },
      )

  -- A claim that hands out a download hands out the oldest waiting task of the server, before
  -- any deletion that was queued later, and leases exactly that row to the token of the command.
  pub claim-IsClaimed :
      (server now : ℕ) (db db' : Db) (c : DownloadTaskCommand)
      → claim_model_task digest lease_seconds token server now db ≡ (some (download_command c), db')
      → (t : ModelDownloadTask) × IsClaimed digest lease_seconds token server now c t db db'
  unfolding claim_model_task
  claim-IsClaimed server now db db' c h =
      elim (Bool-cases (
        exists (holds_download server now) db.downloads
        || exists (holds_delete server now) db.deletions)) [
          | inl busy ↦ absurd (ground arith)
          | inr idle ↦
              row-IsClaimed server now
                (select_row (candidate_download server now db) (candidate_delete server now db)) db
                db' c refl (rw idle at h)
        ]

  -- The task of a command, as it is stored after the claim.
  pub claimed-find :
      (server now : ℕ) (db db' : Db) (c : DownloadTaskCommand) (t : ModelDownloadTask)
      → HasUniqueIds db
      → IsClaimed digest lease_seconds token server now c t db db'
      → owned_task server c.task_id db'.downloads
        ≡ some (lease_download digest lease_seconds token now t)
  unfolding lease_download
  claimed-find server now db db' c t u x =
      let row = lease_download digest lease_seconds token now t in
      let old : find task_id row.id db.downloads ≡ some t =
        find_self task_id db.downloads t u.downloads x.stored in
      let waits = x.waited in
      rw (x.leased, x.names_task) (ground (arith, find-put task_id row t t.id db.downloads old))
