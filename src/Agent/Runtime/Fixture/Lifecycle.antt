-- ===== src/Agent/Runtime/Fixture/Lifecycle.antt =====
-- The runtime in memory against the same states of a container as the Docker runtime.
use ai_infra_console.Prelude.{
  ℕ, ◌≡◌, ◌≢◌, refl, sym, ap, true, Option, none, some, Result, ok, err, arith, ◌==◌, ==_refl,
  ==_iff, Bool-cases, inl, inr,
}
use ai_infra_console.Db.Deployments.{Action}
use ai_infra_console.Deployments.Reports.{ObservedState, running, stopped, missing}
use ai_infra_console.Deployments.Commands.{DeploymentLifecycleCommand}
use ai_infra_console.Agent.Errors.{ExecutionError, managed_container_missing}
use ai_infra_console.Agent.Runtime.{DeploymentExecutionResult}
use ai_infra_console.Agent.Runtime.Docker.Lifecycle.{settled}
use ai_infra_console.Agent.Runtime.Fixture.{
  FixtureContainer, Containers, store, current_of, without_container, on_container, dispatch,
  fixture_lifecycle,
}

abbrev pub shown : Option FixtureContainer → ObservedState
shown none = missing
shown (some c) = elim c.state [ running ↦ running | _ ↦ stopped ]

-- A refusal is of a container that the command needs and that is not there; otherwise the runtime
-- reports the state that the command asks for, the container is in it, and no other deployment's
-- container changed.
abbrev pub Settles :
    Action
    → ℕ
    → ℕ
    → Containers
    → Result ExecutionError (DeploymentExecutionResult × Containers)
    → Type 0
Settles kind id generation containers (err e) =
    (e ≡ managed_container_missing)
    × (settled kind (shown (current_of id generation containers)) ≡ none)
Settles kind id generation containers (ok (result, after)) =
    (settled kind (shown (current_of id generation containers)) ≡ some result.state)
    × (shown (current_of id generation after) ≡ result.state)
    × ((other : ℕ) → other ≢ id → after other ≡ containers other)

store-other :
    (id other : ℕ) (entry : Option FixtureContainer) (containers : Containers)
    → other ≢ id
    → store id entry containers other ≡ containers other
store-other id other entry containers n = elim (Bool-cases (id == other)) [
  | inl t ↦ absurd (n (sym ((==_iff id other).0 t)))
  | inr f ↦ rw f refl
]

current_of-generation :
    (id generation : ℕ) (containers : Containers) (c : FixtureContainer)
    → current_of id generation containers ≡ some c
    → c.generation == generation ≡ true
unfolding current_of
current_of-generation id generation containers c h = ground arith

current_of-store :
    (id generation : ℕ) (containers : Containers) (c : FixtureContainer)
    → c.generation == generation ≡ true
    → current_of id generation (store id (some c) containers) ≡ some c
unfolding current_of
current_of-store id generation containers c h = rw (current_of, ==_refl id, h) refl

current_of-removed :
    (id generation : ℕ) (containers : Containers)
    → current_of id generation (store id none containers) ≡ none
unfolding current_of
current_of-removed id generation containers = rw (current_of, ==_refl id) refl

deleted : (before : ObservedState) → settled Action.delete before ≡ some missing
deleted before = ground arith

on_container-Settles :
    (kind : Action) (id generation : ℕ) (c : FixtureContainer) (containers : Containers)
    → kind ≢ Action.create
    → current_of id generation containers ≡ some c
    → Settles kind id generation containers (on_container kind id c containers)
unfolding on_container
on_container-Settles Action.create id generation c containers k h = absurd (k refl)
on_container-Settles Action.start id generation c containers k h =
    let g = current_of-generation id generation containers c h in
    (
      rw h (ground arith),
      ap shown (current_of-store id generation containers (record c { state = running }) g),
      λ other. store-other id other _ containers,
    )
on_container-Settles Action.stop id generation c containers k h =
    let g = current_of-generation id generation containers c h in
    (
      rw h (ground arith),
      ap shown (current_of-store id generation containers (record c { state = stopped }) g),
      λ other. store-other id other _ containers,
    )
on_container-Settles Action.restart id generation c containers k h =
    let g = current_of-generation id generation containers c h in
    (
      rw h (ground arith),
      ap shown (current_of-store id generation containers (record c { state = running }) g),
      λ other. store-other id other _ containers,
    )
on_container-Settles Action.delete id generation c containers k h = (
  deleted (shown (current_of id generation containers)),
  ap shown (current_of-removed id generation containers),
  λ other. store-other id other _ containers,
)

without-Settles :
    (kind : Action) (id generation : ℕ) (containers : Containers)
    → kind ≢ Action.create
    → current_of id generation containers ≡ none
    → Settles kind id generation containers (dispatch kind id none containers)
unfolding dispatch without_container
without-Settles Action.create id generation containers k h = absurd (k refl)
without-Settles Action.start id generation containers k h = (refl, rw h refl)
without-Settles Action.restart id generation containers k h = (refl, rw h refl)
without-Settles Action.stop id generation containers k h = (rw h refl, rw h refl, λ other n. refl)
without-Settles Action.delete id generation containers k h =
    (deleted (shown (current_of id generation containers)), rw h refl, λ other n. refl)

-- The runtime in memory settles every lifecycle command as the states of the container say.
pub fixture_lifecycle-Settles :
    (command : DeploymentLifecycleCommand) (containers : Containers)
    → command.kind ≢ Action.create
    → Settles command.kind command.deployment_id command.generation containers
        (fixture_lifecycle command containers)
unfolding fixture_lifecycle dispatch
fixture_lifecycle-Settles command containers k =
    go (current_of command.deployment_id command.generation containers) refl
  where
    go :
        (current : Option FixtureContainer)
        → current_of command.deployment_id command.generation containers ≡ current
        → Settles command.kind command.deployment_id command.generation containers
            (dispatch command.kind command.deployment_id current containers)
    go none h = without-Settles command.kind command.deployment_id command.generation containers k h
    go (some c) h =
        on_container-Settles command.kind command.deployment_id command.generation c containers k h
