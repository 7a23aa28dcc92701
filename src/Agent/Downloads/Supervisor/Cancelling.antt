-- ===== src/Agent/Downloads/Supervisor/Cancelling.antt =====
-- When the reporting loop cancels a download.
use ai_infra_console.Prelude.{
  ℕ, ◌≡◌, refl, sym, ◌∙◌, ap, Bool, true, false, ◌||◌, Option, none, some, List, [], ◌∷◌, arith,
}
use ai_infra_console.Agent.Downloads.Supervisor.{start_reporting, report_turn, report_loop}

-- Some answer asks for the download to be cancelled.
abbrev pub asks : List (Option Bool) → Bool
asks [] = false
asks (none ∷ answers) = asks answers
asks (some cancel ∷ answers) = cancel || asks answers

-- Three requests in a row fail.
abbrev pub three_in_row : List (Option Bool) → Bool
three_in_row [] = false
three_in_row (some cancel ∷ answers) = three_in_row answers
three_in_row (none ∷ []) = false
three_in_row (none ∷ some cancel ∷ answers) = three_in_row answers
three_in_row (none ∷ none ∷ []) = false
three_in_row (none ∷ none ∷ some cancel ∷ answers) = three_in_row answers
three_in_row (none ∷ none ∷ none ∷ answers) = true

cancelled-stays :
    (answers : List (Option Bool)) (f : ℕ)
    → (report_loop answers (record { report_failures = f; cancel_event = true })).cancel_event
      ≡ true
unfolding report_turn
cancelled-stays [] f = refl
cancelled-stays (none ∷ answers) f = cancelled-stays answers _
cancelled-stays (some c ∷ answers) f = cancelled-stays answers _

-- The loop that has seen `f` failures in a row.
abbrev from : ℕ → Bool → List (Option Bool) → Bool
from f c answers =
    (report_loop answers (record { report_failures = f; cancel_event = c })).cancel_event

or_false : (c : Bool) → (c || false) ≡ c
or_false c = ground arith

or_true : (c : Bool) → (c || true) ≡ true
or_true c = ground arith

or_or_true : (c d : Bool) → (c || d || true) ≡ true
or_or_true c d = ground arith

or_assoc : (c b a r : Bool) → ((c || b) || a || r) ≡ (c || (b || a) || r)
or_assoc c b a r = ground arith

from_lem :
    (answers : List (Option Bool)) (c : Bool)
    → (from 0 c answers ≡ c || asks answers || three_in_row answers)
      × (from 1 c answers ≡ c || asks answers || three_in_row (none ∷ answers))
      × (from 2 c answers ≡ c || asks answers || three_in_row (none ∷ none ∷ answers))
unfolding report_turn
from_lem [] c = ground arith
from_lem (none ∷ answers) c =
    let (_, once, twice) = from_lem answers c in
    (
      ap (λ d. from 1 d answers) (or_false c) ∙ once,
      ap (λ d. from 2 d answers) (or_false c) ∙ twice,
      ap (λ d. from 3 d answers) (or_true c)
          ∙ cancelled-stays answers 3
          ∙ sym (or_or_true c (asks answers)),
    )
from_lem (some b ∷ answers) c =
    let (never, _, _) = from_lem answers (c || b) in
    let asked = never ∙ or_assoc c b (asks answers) (three_in_row answers) in (asked, asked, asked)

-- The reporting loop cancels the download exactly when an answer asks for it or three requests in
-- a row fail; a success in between starts the count again.
pub report_loop-cancels :
    (answers : List (Option Bool))
    → (report_loop answers start_reporting).cancel_event ≡ asks answers || three_in_row answers
unfolding start_reporting
report_loop-cancels answers = (from_lem answers false).0
