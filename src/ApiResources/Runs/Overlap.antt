-- ===== src/ApiResources/Runs/Overlap.antt =====
-- That the guard of `_start_sync` refuses no request.
use ai_infra_console.Prelude.{
  ℕ, ◌+◌, Text, text_eq_refl, ◌≡◌, refl, Bool, true, false, Option, none, some, List, [], ◌∷◌, ◌++◌,
  ==_refl, arith, exists, find, count_by, count_by-append, to_ℕ, ap, ◌∙◌, ok, err, Result,
}
use ai_infra_console.ApiResources.Runs.{
  ApiSyncRun, is_open_run, started_run, start_sync, finish_sync, SyncOutcome, written, raised,
  SyncTables, SyncEvent, starts, commits, rolls_back, sync_step, synced_by, run_key, with_start,
  with_end, ApiResourceError,
}

-- The runs of an account of one type that go on: flushed by requests that have not ended.
abbrev pub going_on : ℕ → Text → SyncTables → ℕ
going_on account sync_type t = count_by (is_open_run account sync_type) t.flushed

finished_closed :
    (account : ℕ) (sync_type : Text) (now : ℕ) (outcome : SyncOutcome) (run : ApiSyncRun)
    → is_open_run account sync_type (finish_sync now outcome run) ≡ false
unfolding is_open_run finish_sync
finished_closed account sync_type now (written count) run = ground arith
finished_closed account sync_type now (raised code message) run = ground arith

exists-append :
    (test : ApiSyncRun → Bool) (runs : List ApiSyncRun) (run : ApiSyncRun)
    → exists test runs ≡ false
    → test run ≡ false
    → exists test (runs ++ run ∷ []) ≡ false
unfolding exists
exists-append test [] run h k = ground arith
exists-append test (r ∷ runs) run h k = ground (arith, exists-append test runs run)

start_sync-none_open :
    (id account : ℕ) (sync_type : Text) (user : Option ℕ) (now : ℕ) (committed : List ApiSyncRun)
    → exists (is_open_run account sync_type) committed ≡ false
    → start_sync id account sync_type user now committed
      ≡ ok (started_run id account sync_type user now)
unfolding start_sync
start_sync-none_open id account sync_type user now committed h = rw h refl

with_start-committed :
    (result : Result ApiResourceError ApiSyncRun) (t : SyncTables)
    → (with_start result t).committed ≡ t.committed
unfolding with_start
with_start-committed (err e) t = refl
with_start-committed (ok run) t = refl

with_end-closed :
    (account : ℕ) (sync_type : Text) (now : ℕ) (outcome : SyncOutcome) (run : Option ApiSyncRun)
    (t : SyncTables)
    → exists (is_open_run account sync_type) t.committed ≡ false
    → exists (is_open_run account sync_type) (with_end now outcome run t).committed ≡ false
unfolding with_end
with_end-closed account sync_type now outcome none t h = h
with_end-closed account sync_type now outcome (some run) t h =
    exists-append (is_open_run account sync_type) t.committed (finish_sync now outcome run) h
      (finished_closed account sync_type now outcome run)

-- No event commits an open run.
sync_step-committed :
    (account : ℕ) (sync_type : Text) (event : SyncEvent) (t : SyncTables)
    → exists (is_open_run account sync_type) t.committed ≡ false
    → exists (is_open_run account sync_type) (sync_step event t).committed ≡ false
unfolding sync_step
sync_step-committed account sync_type (starts id other other_type user now) t h =
    ap (exists (is_open_run account sync_type)) (with_start-committed _ t) ∙ h
sync_step-committed account sync_type (commits id now outcome) t h =
    with_end-closed account sync_type now outcome (find run_key id t.flushed) t h
sync_step-committed account sync_type (rolls_back id) t h = h

committed_closed :
    (account : ℕ) (sync_type : Text) (events : List SyncEvent)
    → exists (is_open_run account sync_type) (synced_by events).committed ≡ false
unfolding exists
committed_closed account sync_type [] = refl
committed_closed account sync_type (event ∷ earlier) =
    sync_step-committed account sync_type event (synced_by earlier)
      (committed_closed account sync_type earlier)

started_open :
    (id account : ℕ) (sync_type : Text) (user : Option ℕ) (now : ℕ)
    → is_open_run account sync_type (started_run id account sync_type user now) ≡ true
unfolding is_open_run
started_open id account sync_type user now = rw (==_refl account, text_eq_refl sync_type) refl

-- Whatever requests started, committed or were rolled back before, and in which order, the next
-- start for any account and type is accepted: no committed run is open. One more run of the
-- account and type goes on then, however many did already.
pub start_sync-overlaps :
    (events : List SyncEvent) (id account : ℕ) (sync_type : Text) (user : Option ℕ) (now : ℕ)
    → (start_sync id account sync_type user now (synced_by events).committed
        ≡ ok (started_run id account sync_type user now))
      × (going_on account sync_type (synced_by (starts id account sync_type user now ∷ events))
          ≡ going_on account sync_type (synced_by events) + 1)
unfolding sync_step with_start
start_sync-overlaps events id account sync_type user now =
    let accepted =
      start_sync-none_open id account sync_type user now (synced_by events).committed
        (committed_closed account sync_type events) in
    let total =
      count_by-append (is_open_run account sync_type) (started_run id account sync_type user now)
        (synced_by events).flushed in
    (
      accepted,
      ap
            (λ result.
              count_by (is_open_run account sync_type)
                (with_start result (synced_by events)).flushed)
            accepted
          ∙ omega (arith, total, ap to_ℕ (started_open id account sync_type user now)),
    )
