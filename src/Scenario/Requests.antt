-- ===== src/Scenario/Requests.antt =====
-- The theorems on the requests of model tasks in order, applied to the life of a download, and
-- those on destinations.
use ai_infra_console.Prelude.{
  ◌+◌, ◌≤◌, text, ◌≡◌, refl, none, some, [], ◌∷◌, ok, arith, find, put, count_by, exists, min_by,
  select,
}
use ai_infra_console.Db.{Db}
use ai_infra_console.Db.Tasks.{failed}
use ai_infra_console.ModelTasks.Downloads.{retry, mutate_download, task_id}
use ai_infra_console.ModelTasks.Claims.{
  claim_model_task, candidate_delete, candidate_download, claim_row, select_row, usable_directory,
}
use ai_infra_console.ModelTasks.Claims.Exclusion.{live_leases}
use ai_infra_console.ModelTasks.Creation.Destinations.{owners, create-owners, retry-owners}
use ai_infra_console.ModelTasks.Steps.{
  Central, Step, Reach, here, next, create, claim, wait, progress,
}
use ai_infra_console.ModelTasks.Steps.Reachability.{IsExclusive, Reach-IsExclusive}
use ai_infra_console.ModelTasks.Steps.Rows.{AllWellFormed, Reach-AllWellFormed}
use ai_infra_console.Scenario.{
  marked, parse_backslashes, mutable_names, fresh_db, qwen, fresh_central,
}
use ai_infra_console.Scenario.Tasks.{
  qwen_task, qwen_db, qwen_created, leased_db, halfway, halfway_task, halfway_reported,
}

fresh_central-IsExclusive : IsExclusive fresh_central
unfolding live_leases count_by
fresh_central-IsExclusive = record {
  ids = record { downloads = tt; deletions = tt };
  one_lease = λ server. omega arith;
}

abbrev halfway_central : Central
halfway_central = record { now = 30; db = record leased_db { downloads = halfway_task ∷ [] } }

fresh_id : find task_id 1 fresh_db.downloads ≡ none
unfolding find
fresh_id = refl

create_step :
    Step marked parse_backslashes mutable_names
      (record fresh_central { now = 5 })
      (record { now = 5; db = qwen_db })
create_step =
    create (record fresh_central { now = 5 }) qwen 7 20 1 qwen_task qwen_db fresh_id qwen_created

claim_step :
    Step marked parse_backslashes mutable_names
      (record { now = 9; db = qwen_db })
      (record { now = 9; db = leased_db })
unfolding claim_model_task exists claim_row select_row candidate_download min_by select
    candidate_delete usable_directory find put text
claim_step = claim (record { now = 9; db = qwen_db }) 60 1 (text "token")

progress_step :
    Step marked parse_backslashes mutable_names
      (record { now = 30; db = leased_db })
      halfway_central
progress_step = progress (record { now = 30; db = leased_db }) 60 1 1 halfway _ _ halfway_reported

-- The download is queued, taken by the agent, and half of it is reported.
qwen_life : Reach marked parse_backslashes mutable_names fresh_central halfway_central
qwen_life =
    let waited = next here (wait fresh_central 5 (omega arith)) in
    let taken = next (next (next waited create_step) (wait _ 9 (omega arith))) claim_step in
    next (next taken (wait _ 30 (omega arith))) progress_step

Reach-IsExclusive_example : IsExclusive halfway_central
Reach-IsExclusive_example = Reach-IsExclusive fresh_central-IsExclusive qwen_life

fresh_db-unowned : owners 1 qwen_task.target_path fresh_db ≤ 1
unfolding owners count_by
fresh_db-unowned = omega arith

create-owners_example :
    (owners 1 qwen_task.target_path fresh_db ≡ 0)
    × (owners 1 qwen_task.target_path qwen_db ≡ 1)
    × (owners 1 qwen_task.target_path qwen_db ≤ 1)
create-owners_example =
    create-owners parse_backslashes mutable_names qwen 7 20 1 5 1 qwen_task.target_path qwen_task
      fresh_db qwen_db qwen_created fresh_db-unowned

-- The first download failed, and a second one took its destination.
abbrev rival_db : Db
rival_db = record qwen_db {
  downloads =
      record qwen_task { status = failed; completed_at = some 8 }
      ∷ record qwen_task { id = 2; created_at = 9 }
      ∷ [];
}

failed_found :
    find task_id 1 rival_db.downloads
    ≡ some (record qwen_task { status = failed; completed_at = some 8 })
unfolding find
failed_found = refl

retry-owners_example :
    (db' : Db) × (mutate_download retry 1 12 rival_db ≡ ok db')
    × (owners 1 qwen_task.target_path db' ≡ owners 1 qwen_task.target_path rival_db + 1)
retry-owners_example =
    retry-owners 1 12 (record qwen_task { status = failed; completed_at = some 8 }) rival_db
      failed_found refl

fresh_db-AllWellFormed : AllWellFormed fresh_db
unfolding AllWellFormed
fresh_db-AllWellFormed = tt

Reach-AllWellFormed_example : AllWellFormed halfway_central.db
Reach-AllWellFormed_example = Reach-AllWellFormed fresh_db-AllWellFormed qwen_life
