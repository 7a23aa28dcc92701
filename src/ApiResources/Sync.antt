-- ===== src/ApiResources/Sync.antt =====
-- The synchronisation of an account's models: what `sync_models` of catalog.py writes when the
-- provider has answered, up to the commit. The id of a new row is the parameter `new_id`.
pub mod Availability
pub mod Unique
use ai_infra_console.Prelude.{
  ℕ, Text, text, text_eq, Bool, true, false, ◌&&◌, ◌||◌, not, Option, none, some, List, [], ◌∷◌,
  ◌++◌, map, ◌==◌, exists, Result, ok, guard, ◌>>=◌, ◌>>◌, if◌then◌else◌,
}

pub record ApiAccountModel : Type 0 where
  pub id : ℕ
  pub account_id : ℕ
  pub provider_model_id : Text
  pub display_name : Option Text
  pub model_family : Option Text
  pub capabilities : List Text
  pub context_window : Option ℕ
  pub is_available : Bool
  pub source : Text
  pub discovered_at : ℕ
  pub last_seen_at : ℕ

-- A model as the provider lists it.
pub record ProviderModel : Type 0 where
  pub model_id : Text
  pub display_name : Option Text
  pub capabilities : List Text
  pub context_window : Option ℕ

-- The row of an account for a model.
unfoldable pub is_model_row : ℕ → Text → ApiAccountModel → Bool
unfolding text_eq
is_model_row account model_id row =
    row.account_id == account && text_eq row.provider_model_id model_id

-- UniqueConstraint("account_id", "provider_model_id")
unfoldable pub is_unique : List ApiAccountModel → Bool
is_unique [] = true
is_unique (row ∷ rows) =
    not (exists (is_model_row row.account_id row.provider_model_id) rows) && is_unique rows

pub data IntegrityError : Type 0 where
  duplicate_model : IntegrityError

-- `item.source == "provider"` of a row of the account
unfoldable pub is_provided : ℕ → ApiAccountModel → Bool
unfolding text text_eq
is_provided account row = row.account_id == account && text_eq row.source (text "provider")

pub withdrawn : ℕ → ApiAccountModel → ApiAccountModel
unfolding is_provided
withdrawn account row = if is_provided account row then record row { is_available = false } else row

-- What is written to the row of a model that the provider lists.
seen : ℕ → ProviderModel → ApiAccountModel → ApiAccountModel
seen now model row = record row {
  display_name = model.display_name;
  capabilities = model.capabilities;
  context_window = model.context_window;
  is_available = true;
  last_seen_at = now;
}

seen_in : ℕ → ℕ → ProviderModel → ApiAccountModel → ApiAccountModel
unfolding seen is_model_row
seen_in account now model row =
    if is_model_row account model.model_id row then seen now model row else row

module _ (new_id : Text → ℕ) where
  discovered : ℕ → ℕ → ProviderModel → ApiAccountModel
  unfolding text
  discovered account now model = record {
    id = new_id model.model_id;
    account_id = account;
    provider_model_id = model.model_id;
    display_name = model.display_name;
    model_family = none;
    capabilities = model.capabilities;
    context_window = model.context_window;
    is_available = true;
    source = text "provider";
    discovered_at = now;
    last_seen_at = now;
  }

  -- The loop over the models; `known` tells the ids that `existing` has, which the loop does not
  -- change.
  unfoldable pub see_models :
      ℕ → ℕ → (Text → Bool) → List ProviderModel → List ApiAccountModel → List ApiAccountModel
  unfolding seen_in discovered
  see_models account now known [] rows = rows
  see_models account now known (model ∷ models) rows =
      let old = see_models account now known models (map (seen_in account now model) rows) in
      let new = see_models account now known models (rows ++ discovered account now model ∷ []) in
      if known model.model_id then old else new

  -- The rows of `sync_models` at its commit, which the constraint of the table may refuse: the
  -- request then fails and the table stays as it was.
  unfoldable pub sync_rows :
      ℕ
      → ℕ
      → List ProviderModel
      → List ApiAccountModel
      → Result IntegrityError (List ApiAccountModel)
  unfolding see_models withdrawn is_model_row
  sync_rows account now models rows =
      let written =
        see_models account now (λ model_id. exists (is_model_row account model_id) rows) models
          (map (withdrawn account) rows) in
      do guard (is_unique written) duplicate_model; ok written
