-- ===== src/Agent/Downloads/Supervisor/Ticks.antt =====
-- The supervisor over a run: one task at a time, and no claim once it is stopping.
use ai_infra_console.Prelude.{
  ℕ, ◌+◌, ◌≡◌, ◌∙◌, refl, Bool, true, false, ◌&&◌, Option, none, some, List, [], ◌∷◌, arith, to_ℕ,
}
use ai_infra_console.ModelTasks.Claims.{ModelTaskCommand}
use ai_infra_console.Agent.Downloads.Supervisor.{ModelTaskSupervisor, tick, stop}

-- What happens to a supervisor: a tick with the answer that a claim would get, the end of the
-- running task, and a stop.
pub data Event : Type 0 where
  ticked : Option (Option ModelTaskCommand) → Event
  ended : Event
  halted : Event

-- The supervisor with the claims that it sent, the tasks that it started and those that ended.
pub record Run : Type 0 where
  pub supervisor : ModelTaskSupervisor
  pub claims : ℕ
  pub starts : ℕ
  pub ends : ℕ

-- The task that is started and has not ended.
abbrev pub running : ModelTaskSupervisor → ℕ
running s = elim s.active [ some (command, false) ↦ 1 | _ ↦ 0 ]

-- The answer to a claim is a task.
abbrev pub brings_task : Option (Option ModelTaskCommand) → Bool
brings_task (some (some command)) = true
brings_task _ = false

unfoldable pub end_task : ModelTaskSupervisor → ModelTaskSupervisor
end_task s = record s {
  active = elim s.active [ some (command, over) ↦ some (command, true) | none ↦ none ];
}

abbrev pub step : Event → Run → Run
step (ticked answer) r =
    let (claimed, s) = tick answer r.supervisor in
    record {
      supervisor = s;
      claims = r.claims + to_ℕ claimed;
      starts = r.starts + to_ℕ (claimed && brings_task answer);
      ends = r.ends;
    }
step ended r = record r { supervisor = end_task r.supervisor; ends = r.ends + running r.supervisor }
step halted r = record r { supervisor = stop r.supervisor }

abbrev pub run : List Event → Run → Run
run [] r = r
run (event ∷ events) r = run events (step event r)

step-one :
    (event : Event) (r : Run)
    → r.starts ≡ r.ends + running r.supervisor
    → (step event r).starts ≡ (step event r).ends + running (step event r).supervisor
unfolding tick stop end_task
step-one (ticked answer) r h = ground arith
step-one ended r h = ground arith
step-one halted r h = ground arith

step-stopping :
    (event : Event) (r : Run)
    → r.supervisor.stopping ≡ true
    → ((step event r).supervisor.stopping ≡ true)
      × ((step event r).claims ≡ r.claims)
      × ((step event r).starts ≡ r.starts)
unfolding tick stop end_task
step-stopping (ticked answer) r h = ground arith
step-stopping ended r h = (h, refl, refl)
step-stopping halted r h = (refl, refl, refl)

-- A supervisor with nothing done yet.
abbrev pub new_run : Run
new_run = record {
  supervisor = record { active = none; cancel_event = false; stopping = false };
  claims = 0;
  starts = 0;
  ends = 0;
}

run-starts :
    (events : List Event) (r : Run)
    → r.starts ≡ r.ends + running r.supervisor
    → (run events r).starts ≡ (run events r).ends + running (run events r).supervisor
run-starts [] r h = h
run-starts (event ∷ events) r h = run-starts events (step event r) (step-one event r h)

-- Whatever happens, of the tasks that were started all but the running one have ended: a claim is
-- never sent while a task runs.
pub run-one :
    (events : List Event)
    → (run events new_run).starts
      ≡ (run events new_run).ends + running (run events new_run).supervisor
run-one events = run-starts events new_run refl

run-stopping :
    (events : List Event) (r : Run)
    → r.supervisor.stopping ≡ true
    → ((run events r).claims ≡ r.claims) × ((run events r).starts ≡ r.starts)
run-stopping [] r h = (refl, refl)
run-stopping (event ∷ events) r h =
    let (stopping, claims, starts) = step-stopping event r h in
    let (claims', starts') = run-stopping events (step event r) stopping in
    (claims' ∙ claims, starts' ∙ starts)

-- After a stop nothing is claimed and nothing is started any more.
pub run-halted :
    (events : List Event) (r : Run)
    → ((run (halted ∷ events) r).claims ≡ r.claims) × ((run (halted ∷ events) r).starts ≡ r.starts)
unfolding stop
run-halted events r = run-stopping events (step halted r) refl
