-- ===== src/Scenario/Runtime.antt =====
-- The theorems on the reports of an agent, applied to a report of a lost container.
use ai_infra_console.Prelude.{
  ℕ, ◌+◌, ◌*◌, ◌≤◌, text, refl, none, [], ◌∷◌, arith, count_by, exists, find,
}
use ai_infra_console.Db.Deployments.{Health}
use ai_infra_console.Deployments.Reports.{ObservedState}
use ai_infra_console.Deployments.Runtime.{LogReport, Observation, apply_runtime_report}
use ai_infra_console.Deployments.Runtime.Observed.{
  entries_at, report-entries, Standing, report-Standing,
}
use ai_infra_console.Scenario.Machines.{chat, stopping_db}

-- Ids that are told apart below a thousand log entries.
abbrev id_of : ℕ → ℕ → ℕ
id_of deployment sequence = deployment * 1_000 + sequence

abbrev line_1 : LogReport
line_1 = record { sequence = 1; timestamp = 500; stream = text "stdout"; message = text "loading" }

-- The container is gone, and the report repeats a log entry.
abbrev lost : Observation
lost = record {
  deployment_id = 60;
  generation = 2;
  container_id = none;
  state = ObservedState.missing;
  exit_code = none;
  health_status = Health.unhealthy;
  health_latency_ms = none;
  checked_at = 600;
  logs = line_1 ∷ line_1 ∷ record line_1 { sequence = 2 } ∷ [];
}

no_entries : entries_at 60 1 stopping_db.deployment_logs ≤ 1
unfolding entries_at count_by
no_entries = omega arith

report-entries_example :
    entries_at 60 1
      (apply_runtime_report id_of 2 1 (lost ∷ lost ∷ []) stopping_db).2.deployment_logs
    ≤ 1
report-entries_example = report-entries id_of 2 60 1 1 (lost ∷ lost ∷ []) stopping_db no_entries

chat-Standing : Standing 60 chat stopping_db
unfolding find exists
chat-Standing = record {
  row = chat;
  stored = refl;
  same_status = refl;
  same_error = (refl, refl);
  operating = refl;
}

report-Standing_example :
    Standing 60 chat (apply_runtime_report id_of 2 1 (lost ∷ lost ∷ []) stopping_db).2
report-Standing_example =
    report-Standing id_of 2 60 chat 1 (lost ∷ lost ∷ []) stopping_db chat-Standing
