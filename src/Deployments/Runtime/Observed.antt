-- ===== src/Deployments/Runtime/Observed.antt =====
-- What a report of an agent cannot do.
use ai_infra_console.Prelude.{
  ℕ, ◌≤◌, ◌≡◌, refl, Bool, true, false, some, List, [], ◌∷◌, ◌++◌, arith, to_ℕ, ◌==◌, Bool-cases,
  Option-cases, inl, inr, exists, select, count_by, count_by-append, find, put, find-put,
  exists-eq_false, ◌&&◌, ap, ◌∙◌, sym, subst, find-eq_some,
}
use ai_infra_console.Strings.{safe_text}
use ai_infra_console.Db.{Db}
use ai_infra_console.Db.Deployments.{Deployment, DeploymentLog}
use ai_infra_console.Deployments.Placement.{deployment_key}
use ai_infra_console.Deployments.Actions.{is_active_of}
use ai_infra_console.Deployments.Runtime.{
  LogReport, Observation, observe, is_logged, add_log, add_logs, kept_logs, observe_deployment,
  apply_runtime_report,
}

-- The log entries of a deployment with a sequence number.
unfoldable pub entries_at : ℕ → ℕ → List DeploymentLog → ℕ
entries_at deployment sequence logs = count_by (is_logged deployment sequence) logs

count_by-select :
    {A : Type 0} (test kept : A → Bool) (xs : List A)
    → count_by test (select kept xs) ≤ count_by test xs
unfolding count_by select
count_by-select test kept [] = omega arith
count_by-select test kept (x ∷ xs) = ground (arith, count_by-select test kept xs)

module _ (new_id : ℕ → ℕ → ℕ) (retention deployment sequence : ℕ) where
  appended :
      (d k : ℕ) (row : DeploymentLog) (logs : List DeploymentLog)
      → row.deployment_id ≡ d
      → row.sequence ≡ k
      → count_by (is_logged d k) logs ≡ 0
      → entries_at deployment sequence logs ≤ 1
      → entries_at deployment sequence (logs ++ row ∷ []) ≤ 1
  unfolding entries_at
  appended d k row logs e e' none_yet one =
      rw (count_by-append (is_logged deployment sequence) row logs)
        (elim (Bool-cases (is_logged deployment sequence row)) [
          | inl mine ↦
              let at_d : d ≡ deployment = ground arith in
              let at_k : k ≡ sequence = ground arith in
              omega (arith, ap to_ℕ mine, rw (at_d, at_k) at none_yet)
          | inr other ↦ omega (arith, ap to_ℕ other, one)
        ])

  add_log-entries :
      (d : ℕ) (entry : LogReport) (logs : List DeploymentLog)
      → entries_at deployment sequence logs ≤ 1
      → entries_at deployment sequence (add_log new_id retention d entry logs).1 ≤ 1
  unfolding add_log entries_at
  add_log-entries d entry logs one = elim (Bool-cases (exists (is_logged d entry.sequence) logs)) [
    | inl there ↦ rw (add_log, there) one
    | inr new ↦
        let none_yet = exists-eq_false (is_logged d entry.sequence) logs new in
        elim (Option-cases (safe_text 4_096 (some entry.message))) [
          | inl blank ↦ rw (add_log, new, blank) one
          | inr (message, said) ↦
              rw (add_log, new, said) (appended d entry.sequence _ logs refl refl none_yet one)
        ]
  ]

  add_logs-entries :
      (d : ℕ) (entries : List LogReport) (logs : List DeploymentLog)
      → entries_at deployment sequence logs ≤ 1
      → entries_at deployment sequence (add_logs new_id retention d entries logs).1 ≤ 1
  unfolding add_logs
  add_logs-entries d [] logs one = one
  add_logs-entries d (entry ∷ entries) logs one =
      add_logs-entries d entries _ (add_log-entries d entry logs one)

  kept_logs-entries :
      (d : ℕ) (entries : List LogReport) (logs : List DeploymentLog)
      → entries_at deployment sequence logs ≤ 1
      → entries_at deployment sequence (kept_logs new_id retention d entries logs) ≤ 1
  unfolding kept_logs entries_at
  kept_logs-entries d [] logs one = one
  kept_logs-entries d (entry ∷ entries) logs one =
      omega (arith, one, count_by-select (is_logged deployment sequence) _ logs)

  observe-entries :
      (server : ℕ) (seen : Observation) (db : Db)
      → entries_at deployment sequence db.deployment_logs ≤ 1
      → entries_at deployment sequence
          (observe_deployment new_id retention server seen db).2.deployment_logs
        ≤ 1
  unfolding observe_deployment
  observe-entries server seen db one =
      elim (Option-cases (find deployment_key seen.deployment_id db.deployments)) [
        | inl gone ↦ rw (observe_deployment, gone) one
        | inr (d, there) ↦
            let added =
              kept_logs-entries d.id seen.logs _
                (add_logs-entries d.id seen.logs db.deployment_logs one) in
            elim (Bool-cases (d.server_id == server && d.generation == seen.generation)) [
              | inl mine ↦ rw (observe_deployment, there, mine) added
              | inr other ↦ rw (observe_deployment, there, other) one
            ]
      ]

  -- Whatever an agent reports, a sequence number of a deployment that has at most one log entry
  -- before has at most one after.
  pub report-entries :
      (server : ℕ) (observations : List Observation) (db : Db)
      → entries_at deployment sequence db.deployment_logs ≤ 1
      → entries_at deployment sequence
          (apply_runtime_report new_id retention server observations db).2.deployment_logs
        ≤ 1
  unfolding apply_runtime_report
  report-entries server [] db one = one
  report-entries server (seen ∷ observations) db one =
      report-entries server observations _ (observe-entries server seen db one)

-- The deployment is there, with this status and this error.
pub record Standing (id : ℕ) (d : Deployment) (db : Db) : Type 0 where
  pub row : Deployment
  pub stored : find deployment_key id db.deployments ≡ some row
  pub same_status : row.status ≡ d.status
  pub same_error : (row.error_code ≡ d.error_code) × (row.error_message ≡ d.error_message)
  pub operating : exists (is_active_of id) db.operations ≡ true

observe-operating :
    (seen : Observation) (e : Deployment)
    → ((observe true seen e).id ≡ e.id)
      × ((observe true seen e).status ≡ e.status)
      × ((observe true seen e).error_code ≡ e.error_code)
      × ((observe true seen e).error_message ≡ e.error_message)
unfolding observe
observe-operating seen e = (refl, refl, refl, refl)

observe-id :
    (active : Bool) (seen : Observation) (e : Deployment) → (observe active seen e).id ≡ e.id
unfolding observe
observe-id active seen e = ground arith

found_new :
    (r e : Deployment) (k : ℕ) (ds : List Deployment)
    → find deployment_key r.id ds ≡ some e
    → (r.id == k) ≡ true
    → find deployment_key k (put deployment_key r ds) ≡ some r
found_new r e k ds h this = rw this at (find-put deployment_key r e k ds h)

found_old :
    (r e : Deployment) (k : ℕ) (ds : List Deployment)
    → find deployment_key r.id ds ≡ some e
    → (r.id == k) ≡ false
    → find deployment_key k (put deployment_key r ds) ≡ find deployment_key k ds
found_old r e k ds h other = rw other at (find-put deployment_key r e k ds h)

module _ (new_id : ℕ → ℕ → ℕ) (retention id : ℕ) (d : Deployment) where
  -- The observed row is written back, be it this one or another.
  written-Standing :
      (active : Bool) (seen : Observation) (e : Deployment) (logs : List DeploymentLog) (db : Db)
      → find deployment_key e.id db.deployments ≡ some e
      → (e.id ≡ id → active ≡ true)
      → Standing id d db
      → Standing id d (record db {
        deployments = put deployment_key (observe active seen e) db.deployments;
        deployment_logs = logs;
      })
  written-Standing active seen e logs db there busy s =
      let same_id = observe-id active seen e in
      let at_row : find deployment_key (observe active seen e).id db.deployments ≡ some e =
        rw same_id there in
      elim (Bool-cases (e.id == id)) [
        | inl this ↦
            let is_id : e.id ≡ id = ground arith in
            let here : find deployment_key id db.deployments ≡ some e =
              ap (λ k. find deployment_key k db.deployments) (sym is_id) ∙ there in
            let both : some s.row ≡ some e = sym s.stored ∙ here in
            let same_row : e ≡ s.row = ground arith in
            let (i, status, code, message) = observe-operating seen e in
            let on : active ≡ true = busy is_id in
            record {
              row = observe active seen e;
              stored =
                  found_new (observe active seen e) e id db.deployments at_row
                    (ap (λ k. k == id) same_id ∙ this);
              same_status =
                  ap (λ a. (observe a seen e).status) on
                  ∙ status
                  ∙ ap (λ r. r.status) same_row
                  ∙ s.same_status;
              same_error = (
                ap (λ a. (observe a seen e).error_code) on
                    ∙ code
                    ∙ ap (λ r. r.error_code) same_row
                    ∙ s.same_error.0,
                ap (λ a. (observe a seen e).error_message) on
                    ∙ message
                    ∙ ap (λ r. r.error_message) same_row
                    ∙ s.same_error.1,
              );
              operating = s.operating;
            }
        | inr other ↦ record {
          row = s.row;
          stored =
              found_old (observe active seen e) e id db.deployments at_row
                (ap (λ k. k == id) same_id ∙ other)
              ∙ s.stored;
          same_status = s.same_status;
          same_error = s.same_error;
          operating = s.operating;
        }
      ]

  observe-Standing :
      (server : ℕ) (seen : Observation) (db : Db)
      → Standing id d db
      → Standing id d (observe_deployment new_id retention server seen db).2
  unfolding observe_deployment
  observe-Standing server seen db s =
      elim (Option-cases (find deployment_key seen.deployment_id db.deployments)) [
        | inl gone ↦
            let same : (observe_deployment new_id retention server seen db).2 ≡ db =
              rw (observe_deployment, gone) refl in
            subst (Standing id d) (sym same) s
        | inr (e, there) ↦
            let (at_id, m) =
              find-eq_some deployment_key seen.deployment_id db.deployments e there in
            elim (Bool-cases (e.server_id == server && e.generation == seen.generation)) [
              | inl mine ↦
                  let written : (observe_deployment new_id retention server seen db).2 ≡ record db {
                    deployments =
                        put deployment_key
                          (observe (exists (is_active_of e.id) db.operations) seen e)
                          db.deployments;
                    deployment_logs =
                        kept_logs new_id retention e.id seen.logs
                          (add_logs new_id retention e.id seen.logs db.deployment_logs).1;
                  } =
                    rw (observe_deployment, there, mine) refl in
                  subst (Standing id d) (sym written) (
                    written-Standing (exists (is_active_of e.id) db.operations) seen e _ db
                      (ap (λ k. find deployment_key k db.deployments) at_id ∙ there)
                      (λ is_id. ap (λ k. exists (is_active_of k) db.operations) is_id ∙ s.operating)
                      s)
              | inr other ↦
                  let same : (observe_deployment new_id retention server seen db).2 ≡ db =
                    rw (observe_deployment, there, other) refl in
                  subst (Standing id d) (sym same) s
            ]
      ]

  -- Whatever an agent reports, a stored deployment with an active operation is stored after it
  -- with the same status and the same error, and its operation is still active.
  pub report-Standing :
      (server : ℕ) (observations : List Observation) (db : Db)
      → Standing id d db
      → Standing id d (apply_runtime_report new_id retention server observations db).2
  unfolding apply_runtime_report
  report-Standing server [] db s = s
  report-Standing server (seen ∷ observations) db s =
      report-Standing server observations _ (observe-Standing server seen db s)
