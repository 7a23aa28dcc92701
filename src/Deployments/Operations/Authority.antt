-- ===== src/Deployments/Operations/Authority.antt =====
-- Which reports on an operation are accepted.
use ai_infra_console.Prelude.{
  ℕ, Text, ◌≡◌, Bool, true, some, arith, ok, found, guard, found-eq-ok, guard-eq-ok, >>=-eq-ok,
  ◌==◌,
}
use ai_infra_console.Db.{Db}
use ai_infra_console.Db.Deployments.{DeploymentOperation}
use ai_infra_console.ModelTasks.Leases.{unexpired, matches_digest}
use ai_infra_console.Deployments.Operations.{is_operating}
use ai_infra_console.Deployments.Reports.{
  TerminalRequest, owned_operation, verify_operation_lease, renew_deployment_operation,
  complete_deployment_operation,
}

-- The operation of a report runs, in its generation, under a live lease that the token opens.
pub record IsAuthorized (digest : Text → Text) (server id now generation : ℕ) (token : Text)
    (db : Db) : Type 0 where
  pub operation : DeploymentOperation
  pub owned : owned_operation server id db.operations ≡ some operation
  pub runs : is_operating operation.status ≡ true
  pub current : operation.generation ≡ generation
  pub opens : matches_digest operation.lease_token_hash (digest token) ≡ true
  pub live : unexpired operation.lease_expires_at now ≡ true

verify-eq-ok :
    (o : DeploymentOperation) (digested : Text) (generation now : ℕ) (u : Unit {0})
    → verify_operation_lease o digested generation now ≡ ok u
    → (o.generation ≡ generation)
      × (matches_digest o.lease_token_hash digested ≡ true)
      × (unexpired o.lease_expires_at now ≡ true)
unfolding verify_operation_lease
verify-eq-ok o digested generation now u h =
    let (a, current, rest) = >>=-eq-ok (guard (o.generation == generation) _) _ h in
    let (b, opens, live) =
      >>=-eq-ok (guard (matches_digest o.lease_token_hash digested) _) _ rest in
    let same : (o.generation == generation) ≡ true = guard-eq-ok _ _ current in
    (ground arith, guard-eq-ok _ _ opens, guard-eq-ok _ _ live)

module _ (digest : Text → Text) where
  -- A terminal report is accepted only if its operation is one of the server that runs in the
  -- generation of the report, under a lease that has not lapsed and whose digest is the token's.
  pub complete-IsAuthorized :
      (server id now deployment : ℕ) (report : TerminalRequest) (deleted : Bool) (db db' : Db)
      → complete_deployment_operation digest server id report now db ≡ ok (deployment, deleted, db')
      → IsAuthorized digest server id now report.generation report.lease_token db
  unfolding complete_deployment_operation
  complete-IsAuthorized server id now deployment report deleted db db' h =
      let (o, there, rest) = >>=-eq-ok (found (owned_operation server id db.operations) _) _ h in
      let (a, operating, rest2) = >>=-eq-ok (guard (is_operating o.status) _) _ rest in
      let (u, verified, rest3) =
        >>=-eq-ok (verify_operation_lease o (digest report.lease_token) report.generation now) _
          rest2 in
      let (current, opens, live) = verify-eq-ok o _ _ now u verified in
      record {
        operation = o;
        owned = found-eq-ok _ _ there;
        runs = guard-eq-ok _ _ operating;
        current = current;
        opens = opens;
        live = live;
      }

  -- A lease is renewed only if its operation is one of the server that runs in the generation of
  -- the request, under a lease that has not lapsed and whose digest is the token's.
  pub renew-IsAuthorized :
      (lease_seconds server id now generation expiry : ℕ) (token : Text) (db db' : Db)
      → renew_deployment_operation digest lease_seconds server id token generation now db
        ≡ ok (expiry, db')
      → IsAuthorized digest server id now generation token db
  unfolding renew_deployment_operation
  renew-IsAuthorized lease_seconds server id now generation expiry token db db' h =
      let (o, there, rest) = >>=-eq-ok (found (owned_operation server id db.operations) _) _ h in
      let (a, operating, rest2) = >>=-eq-ok (guard (is_operating o.status) _) _ rest in
      let (u, verified, rest3) =
        >>=-eq-ok (verify_operation_lease o (digest token) generation now) _ rest2 in
      let (current, opens, live) = verify-eq-ok o _ _ now u verified in
      record {
        operation = o;
        owned = found-eq-ok _ _ there;
        runs = guard-eq-ok _ _ operating;
        current = current;
        opens = opens;
        live = live;
      }
