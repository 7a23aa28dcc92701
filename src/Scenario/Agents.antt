-- ===== src/Scenario/Agents.antt =====
-- The theorems on the agent's model tasks, applied to a download of one model.
use ai_infra_console.Strings.{split, strip}
use ai_infra_console.Prelude.{
  ℕ, ◌+◌, ◌-◌, ◌/◌, ap, All, arith, if◌then◌else◌, Text, text, text_eq, ◌≡◌, refl, true, false,
  ◌||◌, none, some, List, [], ◌∷◌, ok, exists, ◌==◌,
}
use ai_infra_console.Json.{obj, field, str, end, pos, negsuc, get}
use ai_infra_console.Agent.Deletions.{execute_delete}
use ai_infra_console.Agent.Deletions.Guarded.{Touches, execute_delete-Touches}
use ai_infra_console.ModelTasks.Claims.{DeleteTaskCommand, DownloadTaskCommand, download_command}
use ai_infra_console.ModelTasks.Paths.{
  PurePath, huggingface, parse_posix, show_path, same_path, provider_text, build_target_path, every,
  is_dots, is_part_character, is_relative_to, is_repository_part, validate_repository_id,
}
use ai_infra_console.ModelTasks.Paths.Inside.{IsName, every-All}
use ai_infra_console.Deployments.Arguments.{validate_extra_arguments}
use ai_infra_console.Agent.Arguments.{agent_validate_extra_arguments}
use ai_infra_console.Agent.Arguments.Agreement.{as_execution, validate-agrees}
use ai_infra_console.Agent.Files.{FileSystem}
use ai_infra_console.Agent.Repository.{
  agent_repository_parts, expected_download_target, is_linked, agent_root, strict_target,
}
use ai_infra_console.Agent.Repository.Central.{IsPlain, central-IsAccepted}
use ai_infra_console.Agent.Repository.Confined.{
  IsConfined, place, under, expected_download_target-IsConfined,
}
use ai_infra_console.Agent.Downloads.{DownloadProgress, adds, fresh_progress, cap}
use ai_infra_console.Agent.Downloads.Counted.{adds-size}
use ai_infra_console.Agent.Downloads.Supervisor.{report_loop, start_reporting, tick, stop}
use ai_infra_console.Agent.Downloads.Supervisor.Cancelling.{asks, three_in_row, report_loop-cancels}
use ai_infra_console.Agent.Downloads.Supervisor.Ticks.{
  ticked, ended, halted, run, new_run, running, run-one, end_task, Event,
}
use ai_infra_console.Scenario.{parse_backslashes}

-- The parts of a path from the root, with `..` taken out: how many of them are left over at the
-- front, and the rest.
abbrev climbed : List Text → ℕ × List Text
climbed [] = (0, [])
climbed (part ∷ parts) =
    let (ups, kept) = climbed parts in
    if text_eq part (text "..")
    then (ups + 1, kept)
    else if ups == 0
    then (0, part ∷ kept)
    else (ups - 1, kept)

abbrev climb : PurePath → PurePath
climb path = record path { parts = (climbed path.parts).1 }

climbed-names : (parts : List Text) → All IsName parts → climbed parts ≡ (0, parts)
unfolding is_dots
climbed-names [] h = refl
climbed-names (part ∷ parts) h =
    let plain : text_eq part (text "..") ≡ false = ground (arith, h.0.1) in
    rw (climbed-names parts h.1, plain) refl

-- A disk on which every path is a directory, no path is a link, and `resolve` climbs at a `..`.
abbrev plain_disk : FileSystem ℕ
plain_disk = record {
  exists = λ s path. some true;
  is_dir = λ s path. some true;
  is_file = λ s path. some false;
  is_symlink = λ s path. some false;
  resolve_strict = λ s path. some (climb path);
  resolve = λ s path. some (climb path);
  file_size = λ s path. some 120;
  read_json = λ s path. some (
      obj (
        field (text "source") (str (text "huggingface"))
          (field (text "source_id") (str (text "Qwen/Qwen3-8B")) end)));
  rmtree = λ s path. (s + 1, true);
  unlink = λ s path. (s + 1, true);
}

abbrev qwen_command : DownloadTaskCommand
qwen_command = record {
  task_id = 1;
  lease_token = text "token";
  root_path = text "/models";
  provider = text "huggingface";
  source_id = text "Qwen/Qwen3-8B";
  revision = text "main";
  target_path = text "/models/huggingface/Qwen/Qwen3-8B";
  cancel_requested = false;
}

abbrev models_root : PurePath
models_root = record { separator = text "/"; anchor = text "/"; parts = text "models" ∷ [] }

qwen_expected :
    expected_download_target plain_disk 0 (models_root ∷ []) qwen_command
    ≡ ok (models_root, place models_root huggingface (text "Qwen") (text "Qwen3-8B"))
unfolding expected_download_target agent_root exists same_path agent_repository_parts strip is_dots
    every is_part_character strict_target is_relative_to is_linked provider_text
qwen_expected = refl

qwen_provider : text "huggingface" ≡ provider_text huggingface
unfolding provider_text
qwen_provider = refl

expected_download_target-IsConfined_example :
    IsConfined plain_disk 0
      (models_root ∷ [])
      qwen_command
      huggingface
      models_root
      (place models_root huggingface (text "Qwen") (text "Qwen3-8B"))
expected_download_target-IsConfined_example =
    expected_download_target-IsConfined plain_disk 0 (models_root ∷ []) qwen_command huggingface
      models_root (place models_root huggingface (text "Qwen") (text "Qwen3-8B")) qwen_provider
      qwen_expected

models_parsed : parse_posix (text "/models") ≡ models_root
unfolding parse_posix
models_parsed = refl

plain_linked : (parts : List Text) → is_linked plain_disk 0 (under models_root parts) ≡ ok false
unfolding is_linked
plain_linked parts = refl

models-IsName : IsName (text "models")
unfolding is_dots text text_eq every is_part_character
models-IsName = (λ e. cc, refl, every-All (text "models") refl)

models-IsPlain : IsPlain plain_disk 0 (parse_posix (text "/models"))
unfolding parse_posix text
models-IsPlain = record {
  root_unlinked = refl;
  root_resolved = refl;
  root_directory = refl;
  resolved = λ parts names.
      ap (λ x. some (record models_root { parts = x.1 }))
        (climbed-names (text "models" ∷ parts) (models-IsName, names));
  unlinked = λ parts names. plain_linked parts;
}

models_rooted : text_eq (parse_posix (text "/models")).anchor [] ≡ false
unfolding text_eq parse_posix
models_rooted = refl

models_allowed : exists (same_path (parse_posix (text "/models"))) (models_root ∷ []) ≡ true
unfolding exists same_path parse_posix
models_allowed = refl

qwen_target :
    build_target_path parse_backslashes (text "/models") huggingface (text "Qwen/Qwen3-8B")
    ≡ ok (text "/models/huggingface/Qwen/Qwen3-8B")
unfolding build_target_path validate_repository_id split strip is_dots is_repository_part same_path
    exists parse_posix provider_text is_relative_to show_path
qwen_target = refl

no_backslash : exists (λ c. c == b'\\') (text "/models") ≡ false
unfolding exists text
no_backslash = refl

central-IsAccepted_example :
    (owner : Text) × (repository : Text) × (expected_download_target plain_disk 0
        (models_root ∷ [])
        qwen_command
      ≡ ok (
        parse_posix (text "/models"),
        place (parse_posix (text "/models")) huggingface owner repository,
      ))
central-IsAccepted_example =
    central-IsAccepted plain_disk parse_backslashes 0 (models_root ∷ []) qwen_command huggingface
      qwen_provider no_backslash models_rooted models-IsPlain models_allowed qwen_target

-- Bytes in a second of microseconds.
abbrev per_second : ℕ → ℕ → ℕ
per_second count elapsed = count / elapsed

-- A counter that knows its total of ten bytes.
abbrev half_way : DownloadProgress
half_way = record (fresh_progress 0) { downloaded_size = 5; total_size = some 10 }

adds-size_example :
    ((adds per_second ((pos 3, 1) ∷ (negsuc 4, 2) ∷ (pos 7, 300_000) ∷ []) half_way).downloaded_size
      ≡ cap (some 10) (5 + 10))
    × ((adds per_second ((pos 3, 1) ∷ (negsuc 4, 2) ∷ (pos 7, 300_000) ∷ []) half_way).total_size
        ≡ some 10)
adds-size_example =
    adds-size per_second ((pos 3, 1) ∷ (negsuc 4, 2) ∷ (pos 7, 300_000) ∷ []) half_way refl

report_loop-cancels_example :
    (report_loop (none ∷ none ∷ some false ∷ none ∷ []) start_reporting).cancel_event
    ≡ asks (none ∷ none ∷ some false ∷ none ∷ [])
      || three_in_row (none ∷ none ∷ some false ∷ none ∷ [])
report_loop-cancels_example = report_loop-cancels (none ∷ none ∷ some false ∷ none ∷ [])

-- A task is started and ends, a second one is started, and the supervisor is stopped while it runs.
abbrev two_tasks : List Event
two_tasks =
    let task = some (some (download_command qwen_command)) in
    ticked task ∷ ticked none ∷ ended ∷ ticked task ∷ halted ∷ ticked task ∷ []

two_started : (run two_tasks new_run).starts ≡ 2
unfolding tick stop end_task
two_started = refl

run-one_example :
    (run two_tasks new_run).starts
    ≡ (run two_tasks new_run).ends + running (run two_tasks new_run).supervisor
run-one_example = run-one two_tasks

validate-agrees_example :
    agent_validate_extra_arguments (text "--task" ∷ text "embed" ∷ text "--enforce-eager" ∷ [])
    ≡ as_execution []
        (validate_extra_arguments (text "--task" ∷ text "embed" ∷ text "--enforce-eager" ∷ []))
validate-agrees_example =
    validate-agrees (text "--task" ∷ text "embed" ∷ text "--enforce-eager" ∷ [])

abbrev qwen_deletion : DeleteTaskCommand
qwen_deletion = record {
  task_id = 2;
  lease_token = text "token";
  root_path = text "/models";
  model_file_id = some 30;
  source = text "huggingface";
  source_id = text "Qwen/Qwen3-8B";
  target_path = text "/models/huggingface/Qwen/Qwen3-8B";
}

-- The manifest on the disk is the model's, so its directory goes.
qwen_removed : (execute_delete plain_disk 0 true (models_root ∷ []) [] qwen_deletion).0 ≡ 1
unfolding execute_delete agent_root exists same_path strict_target is_relative_to is_linked get
qwen_removed = refl

execute_delete-Touches_example :
    Touches plain_disk 0 true
      (models_root ∷ [])
      []
      qwen_deletion
      (execute_delete plain_disk 0 true (models_root ∷ []) [] qwen_deletion).0
execute_delete-Touches_example =
    execute_delete-Touches plain_disk 0 true (models_root ∷ []) [] qwen_deletion
