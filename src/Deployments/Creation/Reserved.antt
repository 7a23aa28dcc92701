-- ===== src/Deployments/Creation/Reserved.antt =====
-- What a created deployment has reserved.
use ai_infra_console.Prelude.{
  ℕ, Text, ◌≡◌, ap, ◌∙◌, Bool, false, not, Option, List, [], ◌∷◌, ◌++◌, map, ok, arith, found,
  guard, >>=-eq-ok, exists,
}
use ai_infra_console.Db.{Db}
use ai_infra_console.Db.Deployments.{
  Deployment, DeploymentStatus, DesiredState, Action, OperationStatus, DeploymentOperation, Gpu,
}
use ai_infra_console.ModelTasks.DeleteRequests.{installation}
use ai_infra_console.Deployments.Arguments.{validate_extra_arguments}
use ai_infra_console.Deployments.Placement.{DeploymentCreateRequest, plan_gpus}
use ai_infra_console.Deployments.Eligibility.{eligible_server}
use ai_infra_console.Deployments.Creation.{
  has_name, has_port, new_deployment, usable_installation, create_deployment,
}

-- A new deployment, with its operation and its GPUs.
pub record IsReserved (fresh_seconds now : ℕ) (request : DeploymentCreateRequest) (d : Deployment)
    (o : DeploymentOperation) (db db' : Db) : Type 0 where
  pub valid_arguments :
      (normalized : List Text) × (validate_extra_arguments request.config.extra_arguments
        ≡ ok normalized)
  pub new_name : exists (has_name d.name) db.deployments ≡ false
  pub new_port : exists (has_port d.server_id d.port) db.deployments ≡ false
  pub placed :
      (selected : List Gpu) × (plan_gpus fresh_seconds now d.server_id request db ≡ ok selected)
      × (db'.deployment_gpus
          ≡ db.deployment_gpus
            ++ map (λ gpu. record { deployment_id = d.id; gpu_id = gpu.id }) selected)
  pub asked : (d.name ≡ request.name) × (d.port ≡ request.port) × (d.config ≡ request.config)
  pub starts :
      (d.status ≡ DeploymentStatus.queued)
      × (d.desired_state ≡ DesiredState.running)
      × (o.deployment_id ≡ d.id)
      × (o.action ≡ Action.create)
      × (o.status ≡ OperationStatus.queued)
      × (o.generation ≡ d.generation)
  pub added :
      (db'.deployments ≡ db.deployments ++ d ∷ []) × (db'.operations ≡ db.operations ++ o ∷ [])

module _ (is_ipv6 : Text → Bool) (names : List Text) (fresh_seconds : ℕ) where
  -- A deployment that is created takes a name that no other has, a port that no other has on its
  -- server, and the GPUs of a plan; it and the creation that is queued for it have the same
  -- generation, and its vLLM options are valid.
  pub create-IsReserved :
      (request : DeploymentCreateRequest) (user : ℕ) (request_id : Option Text)
      (id operation_id now : ℕ) (d : Deployment) (o : DeploymentOperation) (db db' : Db)
      → create_deployment is_ipv6 names fresh_seconds request user request_id id operation_id now db
        ≡ ok (d, o, db')
      → IsReserved fresh_seconds now request d o db db'
  unfolding create_deployment new_deployment
  create-IsReserved request user request_id id operation_id now d o db db' h =
      let (arguments, valid, rest) =
        >>=-eq-ok (validate_extra_arguments request.config.extra_arguments) _ h in
      let (row, there, rest2) =
        >>=-eq-ok (found (installation request.model_file_id db) _) _ rest in
      let (u, usable, rest3) = >>=-eq-ok (usable_installation row db) _ rest2 in
      let (server, eligible, rest4) =
        >>=-eq-ok (eligible_server names row.file.server_id db) _ rest3 in
      let (v, named, rest5) =
        >>=-eq-ok (guard (not (exists (has_name request.name) db.deployments)) _) _ rest4 in
      let (w, ported, rest6) =
        >>=-eq-ok (guard (not (exists (has_port server.id request.port) db.deployments)) _) _
          rest5 in
      let (selected, planned, done) =
        >>=-eq-ok (plan_gpus fresh_seconds now server.id request db) _ rest6 in
      let at_server : d.server_id ≡ server.id = ground arith in
      let same_name : d.name ≡ request.name = ground arith in
      let same_port : d.port ≡ request.port = ground arith in
      record {
        valid_arguments = (arguments, valid);
        new_name = rw same_name (ground (arith, named));
        new_port =
            (ap (λ k. exists (has_port k d.port) db.deployments) at_server)
            ∙ (ap (λ p. exists (has_port server.id p) db.deployments) same_port)
            ∙ ground (arith, ported);
        placed = (
          selected,
          ap (λ k. plan_gpus fresh_seconds now k request db) at_server ∙ planned,
          ground arith,
        );
        asked = (same_name, same_port, ground arith);
        starts =
            (ground arith, ground arith, ground arith, ground arith, ground arith, ground arith);
        added = (ground arith, ground arith);
      }
