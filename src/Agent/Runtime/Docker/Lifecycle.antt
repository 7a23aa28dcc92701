-- ===== src/Agent/Runtime/Docker/Lifecycle.antt =====
-- The Docker runtime against the states of one container: missing, stopped and running.
use ai_infra_console.Prelude.{
  ℕ, Text, ◌≡◌, ◌≢◌, ◌⊎◌, refl, sym, ap, subst, true, false, Option, none, some, Bool-cases, inl,
  inr, Result, ok, err, arith, if◌then◌else◌,
}
use ai_infra_console.Db.Deployments.{Float64, Action}
use ai_infra_console.Deployments.Reports.{ObservedState, running, stopped, missing}
use ai_infra_console.Deployments.Commands.{DeploymentLifecycleCommand}
use ai_infra_console.Agent.Errors.{
  ExecutionError, deployment_port_conflict, foreign_container_conflict,
}
use ai_infra_console.Agent.Runtime.{DeploymentExecutionResult}
use ai_infra_console.Agent.Runtime.Docker.{
  Container, Answer, returned, not_found, image_not_found, api_error, Docker, is_owned, judged,
  owned_container, on_container, without_container, dispatch, run_lifecycle, raised, port_of,
  free_port, check_port, Step, call, ◌>>◌, pure,
}

-- What a command makes of a container that is or is not there.
abbrev pub settled : Action → ObservedState → Option ObservedState
settled Action.stop missing = some missing
settled Action.stop _ = some stopped
settled Action.delete _ = some missing
settled _ missing = none
settled _ _ = some running

-- The state that the daemon's answer shows.
abbrev pub state_of : Answer Container → ObservedState
state_of (returned container) = if container.is_running then running else stopped
state_of _ = missing

-- What the runtime relies on: a call that goes through has its effect on the container of the
-- name.
pub record IsDaemon {D : Type 0} (docker : Docker D) : Type 0 where
  pub starts :
      (name : Text) (c : Container) (d : D)
      → docker.get name d ≡ returned c
      → (docker.start c.id d).1 ≡ returned tt
      → docker.get name (docker.start c.id d).0 ≡ returned (record c { is_running = true })
  pub stops :
      (name : Text) (c : Container) (d : D)
      → docker.get name d ≡ returned c
      → (docker.stop c.id d).1 ≡ returned tt
      → docker.get name (docker.stop c.id d).0 ≡ returned (record c { is_running = false })
  pub restarts :
      (name : Text) (c : Container) (d : D)
      → docker.get name d ≡ returned c
      → (docker.restart c.id d).1 ≡ returned tt
      → docker.get name (docker.restart c.id d).0 ≡ returned (record c { is_running = true })
  pub removes :
      (name : Text) (c : Container) (d : D)
      → docker.get name d ≡ returned c
      → (docker.remove c.id d).1 ≡ returned tt
      → docker.get name (docker.remove c.id d).0 ≡ not_found

raised-cases :
    (a : Answer (Unit {0})) → (a ≡ returned tt) ⊎ ((e : ExecutionError) × (raised a ≡ err e))
raised-cases (returned tt) = inl refl
raised-cases not_found = inr (_, refl)
raised-cases image_not_found = inr (_, refl)
raised-cases api_error = inr (_, refl)

module _ {D : Type 0} (docker : Docker D) (show_id : ℕ → Text) (show_float : Float64 → Text) where
  -- The step on the daemon reaches the state that it reports.
  abbrev pub Reaches :
      Text → Action → ObservedState → D × Result ExecutionError DeploymentExecutionResult → Type 0
  Reaches name kind before (d', ok result) =
      (settled kind before ≡ some result.state) × (state_of (docker.get name d') ≡ result.state)
  Reaches name kind before (d', err e) = Unit

  abbrev pub reports : ObservedState → Option Text → Step D DeploymentExecutionResult
  reports state container_id = pure (ok (record { state = state; container_id = container_id }))

  free_port-cases :
      (port : Option ℕ) (d : D)
      → (free_port docker show_id show_float port d ≡ (d, ok tt))
        ⊎ ((e : ExecutionError) × (free_port docker show_id show_float port d ≡ (d, err e)))
  unfolding free_port check_port
  free_port-cases none d = inl refl
  free_port-cases (some port) d = elim (Bool-cases (docker.port_available port d)) [
    | inl t ↦ inl (rw t refl)
    | inr f ↦ inr (deployment_port_conflict, rw f refl)
  ]

  started : (c : Container) → settled Action.start (state_of (returned c)) ≡ some running
  started c = ground arith

  halted : (c : Container) → settled Action.stop (state_of (returned c)) ≡ some stopped
  halted c = ground arith

  restarted : (c : Container) → settled Action.restart (state_of (returned c)) ≡ some running
  restarted c = ground arith

  deleted : (c : Container) → settled Action.delete (state_of (returned c)) ≡ some missing
  deleted c = ground arith

  through-Reaches :
      (kind : Action) (name : Text) (before : ObservedState) (effect : D → D × Answer (Unit {0}))
      (rest : Step D DeploymentExecutionResult) (d : D)
      → ((effect d).1 ≡ returned tt → Reaches name kind before (rest (effect d).0))
      → Reaches name kind before ((call effect >> rest) d)
  through-Reaches kind name before effect rest d h = elim (raised-cases (effect d).1) [
    | inl e ↦ subst after (sym (ap raised e)) (h e)
    | inr (e, failed) ↦ subst after (sym failed) tt
  ]
    where
      after : Result ExecutionError (Unit {0}) → Type 0
      after r =
          Reaches name kind before
            (elim r as (λ x. D × Result ExecutionError DeploymentExecutionResult) [
              | err e ↦ ((effect d).0, err e)
              | ok value ↦ rest (effect d).0
            ])

  free-Reaches :
      (kind : Action) (name : Text) (before : ObservedState) (port : Option ℕ)
      (rest : Step D DeploymentExecutionResult) (d : D)
      → Reaches name kind before (rest d)
      → Reaches name kind before ((free_port docker show_id show_float port >> rest) d)
  free-Reaches kind name before port rest d h = elim (free_port-cases port d) [
    | inl free ↦ subst after (sym free) h
    | inr (e, taken) ↦ subst after (sym taken) tt
  ]
    where
      after : D × Result ExecutionError (Unit {0}) → Type 0
      after r =
          Reaches name kind before
            (elim r.1 as (λ x. D × Result ExecutionError DeploymentExecutionResult) [
              | err e ↦ (r.0, err e)
              | ok value ↦ rest r.0
            ])

  without-Reaches :
      (kind : Action) (name : Text) (d : D)
      → kind ≢ Action.create
      → state_of (docker.get name d) ≡ missing
      → Reaches name kind missing (d, without_container docker show_id show_float kind)
  unfolding without_container
  without-Reaches Action.create name d k h = absurd (k refl)
  without-Reaches Action.start name d k h = tt
  without-Reaches Action.stop name d k h = (refl, h)
  without-Reaches Action.restart name d k h = tt
  without-Reaches Action.delete name d k h = (refl, h)

  -- The rest of a lifecycle command after the labels are checked.
  abbrev Continues :
      DeploymentLifecycleCommand
      → D
      → ObservedState
      → Result ExecutionError (Option Container)
      → Type 0
  Continues command d before owned =
      Reaches command.container_name command.kind before
        (elim owned as (λ x. D × Result ExecutionError DeploymentExecutionResult) [
          | err e ↦ (d, err e)
          | ok container ↦ dispatch docker show_id show_float command.kind container d
        ])

  module _ (daemon : IsDaemon docker) where
    on_container-Reaches :
        (kind : Action) (name : Text) (c : Container) (d : D)
        → kind ≢ Action.create
        → docker.get name d ≡ returned c
        → Reaches name kind
            (state_of (returned c))
            (on_container docker show_id show_float kind c d)
    unfolding on_container
    on_container-Reaches Action.create name c d k h = absurd (k refl)
    on_container-Reaches Action.start name c d k h =
        free-Reaches Action.start name (state_of (returned c)) (port_of c.port_label)
          (call (docker.start c.id) >> reports running (some c.id)) d
          (through-Reaches Action.start name (state_of (returned c)) (docker.start c.id)
            (reports running (some c.id)) d
            (λ e. (started c, ap state_of (daemon.starts name c d h e))))
    on_container-Reaches Action.stop name c d k h =
        through-Reaches Action.stop name (state_of (returned c)) (docker.stop c.id)
          (reports stopped (some c.id)) d (λ e. (halted c, ap state_of (daemon.stops name c d h e)))
    on_container-Reaches Action.restart name c d k h =
        through-Reaches Action.restart name (state_of (returned c)) (docker.restart c.id)
          (reports running (some c.id)) d
          (λ e. (restarted c, ap state_of (daemon.restarts name c d h e)))
    on_container-Reaches Action.delete name c d k h =
        through-Reaches Action.delete name (state_of (returned c)) (docker.stop c.id)
          (call (docker.remove c.id) >> reports missing none) d
          (λ e.
            let there = daemon.stops name c d h e in
            through-Reaches Action.delete name (state_of (returned c)) (docker.remove c.id)
              (reports missing none) (docker.stop c.id d).0
              (λ e'. (
                deleted c,
                ap state_of (
                    daemon.removes name (record c { is_running = false }) (docker.stop c.id d).0
                      there e'),
              )))

    judged-Reaches :
        (command : DeploymentLifecycleCommand) (d : D) (found : Answer Container)
        → command.kind ≢ Action.create
        → docker.get command.container_name d ≡ found
        → Continues command d
            (state_of found)
            (judged docker show_id show_float command.deployment_id command.generation found)
    unfolding judged dispatch
    judged-Reaches command d (returned c) k h =
        elim (Bool-cases
          (is_owned docker show_id show_float c command.deployment_id command.generation)) [
            | inl t ↦
                subst
                  (λ b.
                    Continues command d (state_of (returned c))
                      (if b then ok (some c) else err foreign_container_conflict))
                  (sym t) (on_container-Reaches command.kind command.container_name c d k h)
            | inr f ↦
                subst
                  (λ b.
                    Continues command d (state_of (returned c))
                      (if b then ok (some c) else err foreign_container_conflict))
                  (sym f) tt
          ]
    judged-Reaches command d not_found k h =
        without-Reaches command.kind command.container_name d k (ap state_of h)
    judged-Reaches command d image_not_found k h =
        without-Reaches command.kind command.container_name d k (ap state_of h)
    judged-Reaches command d api_error k h = tt

    -- A lifecycle command either fails or takes the container of its name to the state that the
    -- command asks of the state it was in, and reports that state.
    pub run_lifecycle-Reaches :
        (command : DeploymentLifecycleCommand) (d : D)
        → command.kind ≢ Action.create
        → Reaches command.container_name command.kind
            (state_of (docker.get command.container_name d))
            (run_lifecycle docker show_id show_float command d)
    unfolding run_lifecycle owned_container
    run_lifecycle-Reaches command d k =
        judged-Reaches command d (docker.get command.container_name d) k refl
