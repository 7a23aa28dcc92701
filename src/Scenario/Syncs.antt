-- ===== src/Scenario/Syncs.antt =====
-- The theorems on synchronisations, applied to an account with one model.
use ai_infra_console.Prelude.{
  ◌+◌, text, ◌≡◌, refl, none, some, true, List, [], ◌∷◌, ok, err, exists,
}
use ai_infra_console.ApiResources.Sync.{
  ApiAccountModel, ProviderModel, is_unique, sync_rows, duplicate_model,
}
use ai_infra_console.ApiResources.Sync.Unique.{Syncs, sync_rows-Syncs}
use ai_infra_console.ApiResources.Runs.{SyncEvent, starts, start_sync, started_run, synced_by}
use ai_infra_console.ApiResources.Runs.Overlap.{going_on, start_sync-overlaps}

abbrev old_model : ApiAccountModel
old_model = record {
  id = 1;
  account_id = 5;
  provider_model_id = text "old";
  display_name = none;
  model_family = none;
  capabilities = [];
  context_window = none;
  is_available = true;
  source = text "provider";
  discovered_at = 1;
  last_seen_at = 1;
}

abbrev new_model : ProviderModel
new_model = record {
  model_id = text "new";
  display_name = none;
  capabilities = [];
  context_window = some 8_192;
}

old_unique : is_unique (old_model ∷ []) ≡ true
unfolding is_unique exists
old_unique = refl

sync_rows-Syncs_example :
    Syncs 5
      (new_model ∷ [])
      (old_model ∷ [])
      (sync_rows (λ model_id. 2) 5 9 (new_model ∷ []) (old_model ∷ []))
sync_rows-Syncs_example =
    sync_rows-Syncs (λ model_id. 2) 5 9 (new_model ∷ []) (old_model ∷ []) old_unique

-- A new model that is listed twice fails the request; a known one may be.
new_repeated :
    sync_rows (λ model_id. 2) 5 9 (new_model ∷ new_model ∷ []) (old_model ∷ [])
    ≡ err duplicate_model
unfolding sync_rows is_unique exists
new_repeated = refl

-- A request for the account's models is under way, and a second one starts.
abbrev one_start : List SyncEvent
one_start = starts 1 5 (text "models") none 4 ∷ []

start_sync-overlaps_example :
    (start_sync 2 5 (text "models") none 6 (synced_by one_start).committed
      ≡ ok (started_run 2 5 (text "models") none 6))
    × (going_on 5 (text "models") (synced_by (starts 2 5 (text "models") none 6 ∷ one_start))
        ≡ going_on 5 (text "models") (synced_by one_start) + 1)
start_sync-overlaps_example = start_sync-overlaps one_start 2 5 (text "models") none 6
