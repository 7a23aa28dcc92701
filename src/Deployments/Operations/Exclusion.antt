-- ===== src/Deployments/Operations/Exclusion.antt =====
-- One operation at a time: a claim leaves a server with at most one live lease.
use ai_infra_console.Prelude.{
  ℕ, ◌+◌, ◌≤◌, Text, ◌≡◌, ◌⊎◌, refl, Bool, true, false, Option, none, some, List, [], ◌∷◌, arith,
  ok, ◌==◌, to_ℕ, ap, Bool-cases, Option-cases, inl, inr, Elem, put, exists, count_by, UniqueIds,
  exists-eq_false, find_self, count_by-put, >>=-eq-ok, put-UniqueIds,
}
use ai_infra_console.Db.{Db}
use ai_infra_console.Db.Deployments.{Deployment, DeploymentOperation}
use ai_infra_console.Deployments.Commands.{DeploymentCommand, command_for}
use ai_infra_console.Deployments.Operations.{
  operation_key, holds_operation, waits_operation, next_operation, fail_missing, fail_stale,
  lease_operation, start_operation, run_operation, deployment_of, claim_deployment_operation,
}

unfoldable pub live_operations : ℕ → ℕ → Db → ℕ
live_operations server now db = count_by (holds_operation server now) db.operations

-- The operation that a claim takes is stored and waits.
pub next_operation-Elem :
    (test : DeploymentOperation → Bool) (os : List DeploymentOperation) (o : DeploymentOperation)
    → next_operation test os ≡ some o
    → (test o ≡ true) × Elem o os
unfolding next_operation
next_operation-Elem test [] o h = cc
next_operation-Elem test (p ∷ ps) o h = ground (arith, next_operation-Elem test ps o)

put_operation_live :
    (server now : ℕ) (db : Db) (o o' : DeploymentOperation)
    → UniqueIds operation_key db.operations
    → Elem o db.operations
    → o'.id ≡ o.id
    → count_by (holds_operation server now) (put operation_key o' db.operations)
        + to_ℕ (holds_operation server now o)
      ≡ live_operations server now db + to_ℕ (holds_operation server now o')
unfolding live_operations
put_operation_live server now db o o' u m e =
    count_by-put operation_key (holds_operation server now) o' o db.operations
      (rw e (find_self operation_key db.operations o u m))

-- Writing the claimed row back keeps every server at one live lease.
put_claimed_live :
    (observed server now : ℕ) (db : Db) (o o' : DeploymentOperation)
    → UniqueIds operation_key db.operations
    → Elem o db.operations
    → o'.id ≡ o.id
    → live_operations server now db ≡ 0
    → live_operations observed now db ≤ 1
    → (holds_operation observed now o' ≡ false) ⊎ (observed ≡ server)
    → count_by (holds_operation observed now) (put operation_key o' db.operations) ≤ 1
put_claimed_live observed server now db o o' u m e idle one (inl other) =
    omega (arith, put_operation_live observed now db o o' u m e, ap to_ℕ other)
put_claimed_live observed server now db o o' u m e idle one (inr same) =
    let idle' : live_operations observed now db ≡ 0 = rw same idle in
    let small : to_ℕ (holds_operation observed now o') ≤ 1 = ground arith in
    omega (arith, put_operation_live observed now db o o' u m e)

module _ (digest : Text → Text) (lease_seconds : ℕ) (lease_token image : Text) where
  -- What a run of the operation writes back.
  abbrev Written : ℕ → ℕ → DeploymentOperation → Db → Db → Type 0
  Written server now o db db' =
      (o' : DeploymentOperation) × (o'.id ≡ o.id)
      × (db'.operations ≡ put operation_key o' db.operations)
      × ((observed : ℕ)
          → o.server_id ≡ server
          → (holds_operation observed now o' ≡ false) ⊎ (observed ≡ server))

  failed_row :
      (now : ℕ) (o : DeploymentOperation) (observed : ℕ)
      → (holds_operation observed now (fail_missing now o) ≡ false)
        × (holds_operation observed now (fail_stale now o) ≡ false)
        × ((fail_missing now o).id ≡ o.id)
        × ((fail_stale now o).id ≡ o.id)
  unfolding fail_missing fail_stale
  failed_row now o observed = ground arith

  leased_row :
      (server now : ℕ) (o : DeploymentOperation) (observed : ℕ)
      → o.server_id ≡ server
      → (holds_operation observed now (lease_operation digest lease_seconds lease_token image now o)
          ≡ false)
        ⊎ (observed ≡ server)
  unfolding lease_operation
  leased_row server now o observed e = ground arith

  run-Written :
      (server now : ℕ) (o : DeploymentOperation) (deployment : Option Deployment) (db db' : Db)
      (command : Option DeploymentCommand)
      → run_operation digest lease_seconds lease_token image server now o deployment db
        ≡ ok (command, db')
      → Written server now o db db'
  unfolding run_operation
  run-Written server now o none db db' command h = (
    fail_missing now o,
    (failed_row now o 0).2,
    ground arith,
    λ observed e. inl (failed_row now o observed).0,
  )
  run-Written server now o (some deployment) db db' command h =
      elim (Bool-cases (o.generation == deployment.generation)) [
        | inl same ↦
            let (c, built, written) =
              >>=-eq-ok
                (command_for image lease_token o deployment
                  (start_operation digest lease_seconds lease_token image now o deployment db))
                _ (rw same at h) in
            (
              lease_operation digest lease_seconds lease_token image now o,
              unfold lease_operation in refl,
              ground arith,
              leased_row server now o,
            )
        | inr stale ↦ (
          fail_stale now o,
          (failed_row now o 0).3,
          ground arith,
          λ observed e. inl (failed_row now o observed).1,
        )
      ]

  claim_waiting-live :
      (observed server now : ℕ) (o : DeploymentOperation) (db db' : Db)
      (command : Option DeploymentCommand)
      → UniqueIds operation_key db.operations
      → next_operation (waits_operation server now) db.operations ≡ some o
      → live_operations server now db ≡ 0
      → live_operations observed now db ≤ 1
      → run_operation digest lease_seconds lease_token image server now o
          (deployment_of server o db)
          db
        ≡ ok (command, db')
      → (live_operations observed now db' ≤ 1) × UniqueIds operation_key db'.operations
  unfolding live_operations
  claim_waiting-live observed server now o db db' command u taken idle one h =
      let (waits, m) = next_operation-Elem (waits_operation server now) db.operations o taken in
      let here : o.server_id ≡ server = ground arith in
      let (o', same, written, counts) = run-Written server now o _ db db' command h in
      (
        rw written
            (put_claimed_live observed server now db o o' u m same idle one (counts observed here)),
        rw written (put-UniqueIds operation_key o' db.operations u),
      )

  -- If operation ids are unique and a server has at most one live lease on an operation, the
  -- same holds after a claim of any server.
  pub claim_operation-live :
      (observed server now : ℕ) (db db' : Db) (command : Option DeploymentCommand)
      → UniqueIds operation_key db.operations
      → live_operations observed now db ≤ 1
      → claim_deployment_operation digest lease_seconds lease_token image server now db
        ≡ ok (command, db')
      → (live_operations observed now db' ≤ 1) × UniqueIds operation_key db'.operations
  unfolding claim_deployment_operation
  claim_operation-live observed server now db db' command u one h =
      elim (Bool-cases (exists (holds_operation server now) db.operations)) [
        | inl busy ↦ let e : db ≡ db' = ground arith in rw (← e) (one, u)
        | inr idle ↦
            elim (Option-cases (next_operation (waits_operation server now) db.operations)) [
              | inl empty ↦ let e : db ≡ db' = ground arith in rw (← e) (one, u)
              | inr (o, taken) ↦
                  claim_waiting-live observed server now o db db' command u taken
                    (unfold live_operations in
                      exists-eq_false (holds_operation server now) db.operations idle)
                    one (ground arith)
            ]
      ]
