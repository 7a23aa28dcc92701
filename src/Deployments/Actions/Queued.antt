-- ===== src/Deployments/Actions/Queued.antt =====
-- One request at a time: what `queue_deployment_action` does on each branch.
use ai_infra_console.Prelude.{
  ℕ, Text, ◌≡◌, inl, inr, refl, Bool, true, false, Option, none, some, List, [], ◌∷◌, ◌++◌, ◌⊎◌, ok,
  err, arith, to_ℕ, ap, Result, Bool-cases, Option-cases, count_by, count_by-append,
}
use ai_infra_console.Db.{Db}
use ai_infra_console.Db.Deployments.{
  Deployment, Action, create, start, stop, restart, delete, OperationStatus, DeploymentOperation,
}
use ai_infra_console.Deployments.Errors.{
  DeploymentError, deployment_operation_conflict, deployment_not_running,
}
use ai_infra_console.Deployments.Actions.{
  is_active_of, latest_operation, active_operation, current_operation, is_lifecycle, same_action,
  is_satisfied, may_restart, enqueue, queue_idle, queue_deployment_action,
}

latest_operation-none :
    (test : DeploymentOperation → Bool) (os : List DeploymentOperation)
    → latest_operation test os ≡ none
    → count_by test os ≡ 0
unfolding latest_operation count_by
latest_operation-none test [] h = refl
latest_operation-none test (o ∷ os) h = ground (arith, latest_operation-none test os)

-- The operations of a deployment that are queued or running.
pub active_count : ℕ → Db → ℕ
active_count deployment db = count_by (is_active_of deployment) db.operations

-- A new operation is queued where none was active.
pub record IsQueued (action : Action) (d : Deployment) (o : DeploymentOperation) (db db' : Db)
    : Type 0 where
  pub idle : active_count d.id db ≡ 0
  pub named : o.action ≡ action
  pub current : o.generation ≡ d.generation
  pub waits : o.status ≡ OperationStatus.queued
  pub added : db'.operations ≡ db.operations ++ o ∷ []
  pub one_active : active_count d.id db' ≡ 1

enqueue-IsQueued :
    (action : Action) (user : ℕ) (request_id : Option Text) (id now : ℕ) (d : Deployment) (db : Db)
    → active_count d.id db ≡ 0
    → IsQueued action d
        (enqueue action user request_id id now d db).0
        db
        (enqueue action user request_id id now d db).1
unfolding enqueue active_count
enqueue-IsQueued action user request_id id now d db none_yet = record {
  idle = none_yet;
  named = refl;
  current = refl;
  waits = refl;
  added = refl;
  one_active =
      let o = (enqueue action user request_id id now d db).0 in
      let mine : is_active_of d.id o ≡ true = ground arith in
      omega (arith, none_yet, ap to_ℕ mine, count_by-append (is_active_of d.id) o db.operations);
}

restart_only :
    (action : Action) (d : Deployment)
    → may_restart action d.status ≡ false
    → is_satisfied action d.status ≡ false
restart_only restart d h = refl
restart_only create d h = cc
restart_only start d h = cc
restart_only stop d h = cc
restart_only delete d h = cc

-- The ways in which a request on a deployment may go.
pub data Queueing (action : Action) (d : Deployment) (db : Db)
    (result : Result DeploymentError (DeploymentOperation × Db)) : Type 0 where
  -- the active operation has the same action
  joined :
      (active : DeploymentOperation)
      → active_operation d.id db ≡ some active
      → same_action active.action action ≡ true
      → result ≡ ok (active, db)
      → Queueing action d db result
  conflict :
      (active : DeploymentOperation)
      → active_operation d.id db ≡ some active
      → same_action active.action action ≡ false
      → result ≡ err deployment_operation_conflict
      → Queueing action d db result
  -- nothing is active, and the deployment already does what is asked
  satisfied :
      (previous : DeploymentOperation)
      → active_operation d.id db ≡ none
      → current_operation d.id db ≡ some previous
      → is_satisfied action d.status ≡ true
      → result ≡ ok (previous, db)
      → Queueing action d db result
  -- a restart of what does not run
  refused :
      active_operation d.id db ≡ none
      → may_restart action d.status ≡ false
      → is_satisfied action d.status ≡ false
      → result ≡ err deployment_not_running
      → Queueing action d db result
  -- nothing is active, the action may be done, and the deployment does not do yet what is asked, or
  -- has no operation that could be the answer
  queued :
      (o : DeploymentOperation) (db' : Db)
      → active_operation d.id db ≡ none
      → may_restart action d.status ≡ true
      → (current_operation d.id db ≡ none) ⊎ (is_satisfied action d.status ≡ false)
      → result ≡ ok (o, db')
      → IsQueued action d o db db'
      → Queueing action d db result

module _ (action : Action) (user : ℕ) (request_id : Option Text) (id now : ℕ) (d : Deployment)
    (db : Db) (life : is_lifecycle action ≡ true) where
  abbrev outcome : Result DeploymentError (DeploymentOperation × Db)
  outcome = queue_deployment_action action user request_id id now d db

  active-Queueing :
      (active : DeploymentOperation)
      → active_operation d.id db ≡ some active
      → Queueing action d db outcome
  unfolding queue_deployment_action
  active-Queueing active e = elim (Bool-cases (same_action active.action action)) [
    | inl same ↦ joined active e same (rw (life, e, same))
    | inr other ↦ conflict active e other (rw (life, e, other))
  ]

  new-Queueing :
      active_operation d.id db ≡ none
      → may_restart action d.status ≡ true
      → (current_operation d.id db ≡ none) ⊎ (is_satisfied action d.status ≡ false)
      → (queue_idle action user request_id id now d (current_operation d.id db) db
          ≡ ok (enqueue action user request_id id now d db))
      → Queueing action d db outcome
  unfolding queue_deployment_action
  new-Queueing idle free fresh e =
      queued (enqueue action user request_id id now d db).0
        (enqueue action user request_id id now d db).1 idle free fresh (rw (life, idle) e)
        (enqueue-IsQueued action user request_id id now d db
          (unfold active_count in latest_operation-none (is_active_of d.id) db.operations idle))

  -- A lifecycle request is answered in one of five ways, of which no two have conditions that hold
  -- at once: with the active operation of the same action; as a conflict with an active one of
  -- another; and where none is active, with the latest operation of a deployment that already does
  -- what is asked; as a refusal to restart what does not run; or, where the action may be done and
  -- no operation of a deployment that does what is asked is there, with a new operation, which is
  -- the only active one of its deployment and has its generation.
  pub queue-Queueing : Queueing action d db outcome
  unfolding queue_deployment_action queue_idle
  queue-Queueing = elim (Option-cases (active_operation d.id db)) [
    | inr (active, e) ↦ active-Queueing active e
    | inl idle ↦ elim (Bool-cases (may_restart action d.status)) [
      | inr stuck ↦
          refused idle stuck (restart_only action d stuck)
            (elim (Option-cases (current_operation d.id db)) [
              | inl new ↦ rw (life, idle, new, stuck)
              | inr (previous, e) ↦ rw (life, idle, e, restart_only action d stuck, stuck)
            ])
      | inl free ↦ elim (Option-cases (current_operation d.id db)) [
        | inl new ↦ new-Queueing idle free (inl new) (rw (new, free))
        | inr (previous, e) ↦ elim (Bool-cases (is_satisfied action d.status)) [
          | inl done ↦ satisfied previous idle e done (rw (life, idle, e, done))
          | inr undone ↦ new-Queueing idle free (inr undone) (rw (e, undone, free))
        ]
      ]
    ]
  ]
