-- ===== src/ApiResources/Runs.antt =====
-- The runs of synchronisations: `_start_sync` and how `sync_models` and `sync_usage` of catalog.py
-- finish a run.
pub mod Overlap
use ai_infra_console.Prelude.{
  ℕ, Text, text_eq, Bool, true, false, ◌&&◌, not, Option, none, some, List, [], ◌∷◌, ◌++◌, ◌==◌,
  exists, find, select, take, Result, ok, err, guard, ◌>>=◌, ◌>>◌,
}

pub data SyncStatus : Type 0 where
  queued running completed failed : SyncStatus

-- A run, without its `details`.
pub record ApiSyncRun : Type 0 where
  pub id : ℕ
  pub account_id : ℕ
  pub sync_type : Text
  pub status : SyncStatus
  pub requested_by_user_id : Option ℕ
  pub started_at : Option ℕ
  pub completed_at : Option ℕ
  pub records_written : ℕ
  pub error_code : Option Text
  pub error_message : Option Text

pub data ApiResourceError : Type 0 where
  api_sync_already_running : ApiResourceError

-- `status.in_(("queued", "running"))`
abbrev pub is_open : SyncStatus → Bool
is_open queued = true
is_open running = true
is_open _ = false

unfoldable pub is_open_run : ℕ → Text → ApiSyncRun → Bool
unfolding text_eq
is_open_run account sync_type run =
    run.account_id == account && text_eq run.sync_type sync_type && is_open run.status

-- A run as it is started.
abbrev pub started_run : ℕ → ℕ → Text → Option ℕ → ℕ → ApiSyncRun
started_run id account sync_type user now = record {
  id = id;
  account_id = account;
  sync_type = sync_type;
  status = running;
  requested_by_user_id = user;
  started_at = some now;
  completed_at = none;
  records_written = 0;
  error_code = none;
  error_message = none;
}

-- `_start_sync` on the committed rows, with the id of the new run: the run that it flushes in its
-- own transaction, which no other one sees.
unfoldable pub start_sync :
    ℕ → ℕ → Text → Option ℕ → ℕ → List ApiSyncRun → Result ApiResourceError ApiSyncRun
unfolding is_open_run
start_sync id account sync_type user now committed = do
  guard (not (exists (is_open_run account sync_type) committed)) api_sync_already_running
  ok (started_run id account sync_type user now)

-- What the work of a run comes to: the number of records, or the code and the text of its error.
pub data SyncOutcome : Type 0 where
  written : ℕ → SyncOutcome
  raised : Text → Text → SyncOutcome

-- The run after the work, at the instant that it ends.
unfoldable pub finish_sync : ℕ → SyncOutcome → ApiSyncRun → ApiSyncRun
finish_sync now (written count) run = record run {
  status = completed;
  records_written = count;
  completed_at = some now;
}
finish_sync now (raised code message) run = record run {
  status = failed;
  completed_at = some now;
  error_code = some code;
  error_message = some (take 512 message);
}

abbrev pub run_key : ApiSyncRun → ℕ
run_key run = run.id

-- The committed runs, and for each request under way the run that it has flushed.
pub record SyncTables : Type 0 where
  pub committed : List ApiSyncRun
  pub flushed : List ApiSyncRun

-- What happens next to the requests: one starts, or the one of a run commits its end, or it raises
-- and its transaction is rolled back.
pub data SyncEvent : Type 0 where
  starts : ℕ → ℕ → Text → Option ℕ → ℕ → SyncEvent
  commits : ℕ → ℕ → SyncOutcome → SyncEvent
  rolls_back : ℕ → SyncEvent

without_run : ℕ → List ApiSyncRun → List ApiSyncRun
without_run id runs = select (λ run. not (run.id == id)) runs

unfoldable pub with_start : Result ApiResourceError ApiSyncRun → SyncTables → SyncTables
with_start (err e) t = t
with_start (ok run) t = record t { flushed = t.flushed ++ run ∷ [] }

unfoldable pub with_end : ℕ → SyncOutcome → Option ApiSyncRun → SyncTables → SyncTables
unfolding finish_sync without_run
with_end now outcome none t = t
with_end now outcome (some run) t = record {
  committed = t.committed ++ finish_sync now outcome run ∷ [];
  flushed = without_run run.id t.flushed;
}

-- `sync_models` and `sync_usage` as far as the runs: `session.flush` at the start, and one
-- `session.commit` with the result.
unfoldable pub sync_step : SyncEvent → SyncTables → SyncTables
unfolding start_sync with_start with_end without_run
sync_step (starts id account sync_type user now) t =
    with_start (start_sync id account sync_type user now t.committed) t
sync_step (commits id now outcome) t = with_end now outcome (find run_key id t.flushed) t
sync_step (rolls_back id) t = record t { flushed = without_run id t.flushed }

-- The events, the last one first, from the tables without a run.
abbrev pub synced_by : List SyncEvent → SyncTables
synced_by [] = record { committed = []; flushed = [] }
synced_by (event ∷ earlier) = sync_step event (synced_by earlier)
