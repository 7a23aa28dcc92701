-- ===== src/Deployments/Operations/Outcomes.antt =====
-- What a terminal report does to the operation and to its deployment.
use ai_infra_console.Prelude.{
  ℕ, Text, ◌≡◌, refl, sym, ◌∙◌, subst, Bool, true, false, none, some, List, [], ◌∷◌, arith, ok,
  ◌==◌, found, guard, >>=-eq-ok, found-eq-ok, find, put, select, not, find-put, find-eq_some,
}
use ai_infra_console.Db.{Db}
use ai_infra_console.Db.Deployments.{
  Deployment, DeploymentStatus, Action, create, start, stop, restart, delete, DeploymentOperation,
}
use ai_infra_console.Deployments.Placement.{deployment_key}
use ai_infra_console.Deployments.Operations.{operation_key, is_operating}
use ai_infra_console.Deployments.Reports.{
  TerminalRequest, Outcome, completed, failed, observed_running, finish_operation, settle,
  complete_start, fail_deployment, stop_deployment, run_deployment, delete_deployment,
  complete_deployment_operation, complete_owned, owned_operation, verify_operation_lease,
  deployment_at,
}

-- The status that a deployment has after an operation.
abbrev pub status_after : Outcome → Action → DeploymentStatus
status_after failed action = DeploymentStatus.failed
status_after completed stop = DeploymentStatus.stopped
status_after completed action = DeploymentStatus.running

abbrev pub is_deletion : Outcome → Action → Bool
is_deletion completed delete = true
is_deletion _ _ = false

find-select_gone :
    {A : Type 0} (key : A → ℕ) (k : ℕ) (xs : List A)
    → find key k (select (λ x. not (key x == k)) xs) ≡ none
unfolding find select
find-select_gone key k [] = refl
find-select_gone key k (x ∷ xs) = ground (arith, find-select_gone key k xs)

stored-put :
    (d d' : Deployment) (deployments : List Deployment)
    → find deployment_key d.id deployments ≡ some d
    → d'.id ≡ d.id
    → find deployment_key d.id (put deployment_key d' deployments) ≡ some d'
stored-put d d' deployments h e =
    let h' : find deployment_key d'.id deployments ≡ some d = rw e h in
    ground (arith, find-put deployment_key d' d d.id deployments h')

-- What a settled operation leaves of its deployment: nothing, or the row with this status.
abbrev pub Leaves : Bool → DeploymentStatus → ℕ → Db → Type 0
Leaves true status id db = find deployment_key id db.deployments ≡ none
Leaves false status id db =
    (d : Deployment) × (find deployment_key id db.deployments ≡ some d) × (d.status ≡ status)

start-Leaves :
    (report : TerminalRequest) (now : ℕ) (d : Deployment) (db : Db) (deleted : Bool) (db' : Db)
    → find deployment_key d.id db.deployments ≡ some d
    → complete_start report now d db ≡ ok (deleted, db')
    → (deleted ≡ false) × Leaves false DeploymentStatus.running d.id db'
unfolding complete_start
start-Leaves report now d db deleted db' h e =
    let (u, running, done) = >>=-eq-ok (guard (observed_running report.observed_state) _) _ e in
    let written : db' ≡ record db {
      deployments = put deployment_key (run_deployment report now d) db.deployments;
    } =
      ground arith in
    (
      ground arith,
      (
        run_deployment report now d,
        rw written (
            stored-put d (run_deployment report now d) db.deployments h
              (unfold run_deployment in refl)),
        unfold run_deployment in refl,
      ),
    )

settle-Leaves :
    (outcome : Outcome) (action : Action) (report : TerminalRequest) (now : ℕ)
    (finished : DeploymentOperation) (d : Deployment) (db : Db) (deleted : Bool) (db' : Db)
    → find deployment_key d.id db.deployments ≡ some d
    → settle outcome action report now finished d db ≡ ok (deleted, db')
    → (deleted ≡ is_deletion outcome action)
      × Leaves (is_deletion outcome action) (status_after outcome action) d.id db'
unfolding settle
settle-Leaves failed action report now finished d db deleted db' h e =
    let written : db' ≡ record db {
      deployments = put deployment_key (fail_deployment report finished d) db.deployments;
    } =
      ground arith in
    (
      ground arith,
      (
        fail_deployment report finished d,
        rw written (
            stored-put d (fail_deployment report finished d) db.deployments h
              (unfold fail_deployment in refl)),
        unfold fail_deployment in refl,
      ),
    )
settle-Leaves completed delete report now finished d db deleted db' h e =
    let written : db' ≡ delete_deployment d.id db = ground arith in
    (
      ground arith,
      rw written (unfold delete_deployment in find-select_gone deployment_key d.id db.deployments),
    )
settle-Leaves completed stop report now finished d db deleted db' h e =
    let written : db'
        ≡ record db { deployments = put deployment_key (stop_deployment now d) db.deployments } =
      ground arith in
    (
      ground arith,
      (
        stop_deployment now d,
        rw written (
            stored-put d (stop_deployment now d) db.deployments h (unfold stop_deployment in refl)),
        unfold stop_deployment in refl,
      ),
    )
settle-Leaves completed create report now finished d db deleted db' h e =
    start-Leaves report now d db deleted db' h e
settle-Leaves completed start report now finished d db deleted db' h e =
    start-Leaves report now d db deleted db' h e
settle-Leaves completed restart report now finished d db deleted db' h e =
    start-Leaves report now d db deleted db' h e

deployment_at-find :
    (id generation : ℕ) (deployments : List Deployment) (d : Deployment)
    → deployment_at id generation deployments ≡ some d
    → find deployment_key id deployments ≡ some d
deployment_at-find id generation deployments d h = ground arith

module _ (digest : Text → Text) where
  owned-Leaves :
      (now : ℕ) (report : TerminalRequest) (o : DeploymentOperation) (db db' : Db)
      (deployment_id : ℕ) (deleted : Bool)
      → complete_owned digest report now o db ≡ ok (deployment_id, deleted, db')
      → (deployment_id ≡ o.deployment_id)
        × (deleted ≡ is_deletion report.outcome o.action)
        × Leaves
            (is_deletion report.outcome o.action)
            (status_after report.outcome o.action)
            deployment_id
            db'
  unfolding complete_owned
  owned-Leaves now report o db db' deployment_id deleted h =
      let (u, operating, rest) = >>=-eq-ok (guard (is_operating o.status) _) _ h in
      let (v, verified, rest2) =
        >>=-eq-ok (verify_operation_lease o (digest report.lease_token) report.generation now) _
          rest in
      let (d, at, rest3) =
        >>=-eq-ok (found (deployment_at o.deployment_id report.generation db.deployments) _) _
          rest2 in
      let db₁ : Db = record db {
        operations = put operation_key (finish_operation report now o) db.operations;
      } in
      let (settled, e, done) =
        >>=-eq-ok (settle report.outcome o.action report now (finish_operation report now o) d db₁)
          _ rest3 in
      let there : find deployment_key o.deployment_id db.deployments ≡ some d =
        deployment_at-find o.deployment_id report.generation db.deployments d
          (found-eq-ok _ _ at) in
      let same_id : d.id ≡ o.deployment_id =
        (find-eq_some deployment_key o.deployment_id db.deployments d there).0 in
      let (gone, left) =
        settle-Leaves report.outcome o.action report now (finish_operation report now o) d db₁
          settled.0 settled.1 (rw same_id there) e in
      let at_o : o.deployment_id ≡ deployment_id = ground arith in
      let at_db : settled.1 ≡ db' = ground arith in
      let at_deleted : settled.0 ≡ deleted = ground arith in
      (
        sym at_o,
        rw (← at_deleted) gone,
        subst
            (λ x.
              Leaves (is_deletion report.outcome o.action) (status_after report.outcome o.action)
                deployment_id x)
            at_db
            (subst
              (λ k.
                Leaves (is_deletion report.outcome o.action) (status_after report.outcome o.action)
                  k settled.1)
              (same_id ∙ at_o) left),
      )

  -- A terminal report that is accepted reaches the deployment of its operation: a completed
  -- deletion removes it, a failed operation leaves it failed, a completed stop leaves it stopped,
  -- and any other completed operation leaves it running.
  pub complete-Leaves :
      (server id now : ℕ) (report : TerminalRequest) (o : DeploymentOperation) (db db' : Db)
      (deployment_id : ℕ) (deleted : Bool)
      → owned_operation server id db.operations ≡ some o
      → complete_deployment_operation digest server id report now db
        ≡ ok (deployment_id, deleted, db')
      → (deployment_id ≡ o.deployment_id)
        × (deleted ≡ is_deletion report.outcome o.action)
        × Leaves
            (is_deletion report.outcome o.action)
            (status_after report.outcome o.action)
            deployment_id
            db'
  unfolding complete_deployment_operation
  complete-Leaves server id now report o db db' deployment_id deleted owned h =
      owned-Leaves now report o db db' deployment_id deleted (rw owned at h)
