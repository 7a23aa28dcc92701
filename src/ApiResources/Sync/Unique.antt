-- ===== src/ApiResources/Sync/Unique.antt =====
-- When the rows of a synchronisation keep the constraint of their table.
use ai_infra_console.Prelude.{
  ℕ, Text, text_eq, text_eq_iff, ==_refl, ◌≡◌, inl, inr, refl, sym, ◌∙◌, ap, Bool, true, false,
  ◌&&◌, ◌||◌, not, ◌==◌, List, [], ◌∷◌, ◌++◌, map, arith, exists, All, ok, err, Result, Bool-cases,
}
use ai_infra_console.ApiResources.Sync.{
  ApiAccountModel, ProviderModel, is_model_row, is_unique, is_provided, withdrawn, seen, seen_in,
  discovered, see_models, sync_rows, IntegrityError, duplicate_model,
}
use ai_infra_console.ApiResources.Sync.Availability.{IsAsListed, lists, see_models-IsAsListed}

-- No model of the list that `known` does not have was listed before it, or is in `before`.
abbrev pub once : (Text → Bool) → (Text → Bool) → List ProviderModel → Bool
once known before [] = true
once known before (model ∷ models) =
    (known model.model_id || not (before model.model_id))
    && once known (λ x. before x || text_eq model.model_id x) models

abbrev present : ℕ → List ApiAccountModel → Text → Bool
present account rows model_id = exists (is_model_row account model_id) rows

-- A change of rows that leaves their keys.
module _ (f : ApiAccountModel → ApiAccountModel)
    (account_kept : (row : ApiAccountModel) → (f row).account_id ≡ row.account_id)
    (model_kept : (row : ApiAccountModel) → (f row).provider_model_id ≡ row.provider_model_id) where
  present-map :
      (account : ℕ) (model_id : Text) (rows : List ApiAccountModel)
      → present account (map f rows) model_id ≡ present account rows model_id
  unfolding exists is_model_row
  present-map account model_id [] = refl
  present-map account model_id (row ∷ rows) =
      rw (account_kept row, model_kept row, present-map account model_id rows) refl

  is_unique-map : (rows : List ApiAccountModel) → is_unique (map f rows) ≡ is_unique rows
  unfolding is_unique
  is_unique-map [] = refl
  is_unique-map (row ∷ rows) =
      rw
        (
          account_kept row,
          model_kept row,
          present-map row.account_id row.provider_model_id rows,
          is_unique-map rows,
        )
        refl

==_comm : (a b : ℕ) → (a == b) ≡ (b == a)
==_comm a b = ground arith

text_eq_comm : (a b : Text) → text_eq a b ≡ text_eq b a
unfolding text_eq
text_eq_comm [] [] = refl
text_eq_comm [] (d ∷ t) = refl
text_eq_comm (c ∷ s) [] = refl
text_eq_comm (c ∷ s) (d ∷ t) = rw (==_comm c d, text_eq_comm s t) refl

same_key_comm :
    (a b : ApiAccountModel)
    → is_model_row a.account_id a.provider_model_id b
      ≡ is_model_row b.account_id b.provider_model_id a
unfolding is_model_row
same_key_comm a b =
    rw (==_comm b.account_id a.account_id, text_eq_comm b.provider_model_id a.provider_model_id)
      refl

present-append :
    (account : ℕ) (model_id : Text) (rows : List ApiAccountModel) (row : ApiAccountModel)
    → present account (rows ++ row ∷ []) model_id
      ≡ present account rows model_id || is_model_row account model_id row
unfolding exists
present-append account model_id [] row = ground arith
present-append account model_id (r ∷ rows) row =
    ground (arith, present-append account model_id rows row)

is_unique-append :
    (rows : List ApiAccountModel) (row : ApiAccountModel)
    → is_unique (rows ++ row ∷ [])
      ≡ is_unique rows && not (present row.account_id rows row.provider_model_id)
unfolding is_unique exists
is_unique-append [] row = refl
is_unique-append (r ∷ rows) row = ground (
  arith,
  is_unique-append rows row,
  present-append r.account_id r.provider_model_id rows row,
  same_key_comm r row,
)

seen_in-account_id :
    (account now : ℕ) (model : ProviderModel) (row : ApiAccountModel)
    → (seen_in account now model row).account_id ≡ row.account_id
unfolding seen_in seen
seen_in-account_id account now model row =
    elim (Bool-cases (is_model_row account model.model_id row)) [
      | inl t ↦ rw t refl
      | inr f ↦ rw f refl
    ]

seen_in-provider_model_id :
    (account now : ℕ) (model : ProviderModel) (row : ApiAccountModel)
    → (seen_in account now model row).provider_model_id ≡ row.provider_model_id
unfolding seen_in seen
seen_in-provider_model_id account now model row =
    elim (Bool-cases (is_model_row account model.model_id row)) [
      | inl t ↦ rw t refl
      | inr f ↦ rw f refl
    ]

withdrawn-account_id :
    (account : ℕ) (row : ApiAccountModel) → (withdrawn account row).account_id ≡ row.account_id
unfolding withdrawn
withdrawn-account_id account row = elim (Bool-cases (is_provided account row)) [
  | inl t ↦ rw t refl
  | inr f ↦ rw f refl
]

withdrawn-provider_model_id :
    (account : ℕ) (row : ApiAccountModel)
    → (withdrawn account row).provider_model_id ≡ row.provider_model_id
unfolding withdrawn
withdrawn-provider_model_id account row = elim (Bool-cases (is_provided account row)) [
  | inl t ↦ rw t refl
  | inr f ↦ rw f refl
]

-- A known model is none of the unknown ones.
unknown_differs :
    (known : Text → Bool) (a x : Text) → known a ≡ true → known x ≡ false → text_eq a x ≡ false
unknown_differs known a x t f = elim (Bool-cases (text_eq a x)) [
  | inl e ↦ absurd (never (sym t ∙ ap known ((text_eq_iff a x).0 e) ∙ f))
  | inr d ↦ d
]
  where
    never : true ≡ false → ⊥
    never e = cc

module _ (new_id : Text → ℕ) (account now : ℕ) (known : Text → Bool) where
  -- `before` tells which of the unknown models have a row by now.
  abbrev IsTold : (Text → Bool) → List ApiAccountModel → Type 0
  IsTold before rows = (x : Text) → known x ≡ false → present account rows x ≡ before x

  abbrev and_before : (Text → Bool) → ProviderModel → Text → Bool
  and_before before model x = before x || text_eq model.model_id x

  old-IsTold :
      (before : Text → Bool) (model : ProviderModel) (rows : List ApiAccountModel)
      → known model.model_id ≡ true
      → IsTold before rows
      → IsTold (and_before before model) (map (seen_in account now model) rows)
  old-IsTold before model rows k told x u =
      present-map (seen_in account now model) (seen_in-account_id account now model)
        (seen_in-provider_model_id account now model) account x rows
      ∙ told x u
      ∙ rw (unknown_differs known model.model_id x k u) (or_false (before x))
    where
      or_false : (b : Bool) → b ≡ (b || false)
      or_false b = ground arith

  new-IsTold :
      (before : Text → Bool) (model : ProviderModel) (rows : List ApiAccountModel)
      → IsTold before rows
      → IsTold (and_before before model) (rows ++ discovered new_id account now model ∷ [])
  unfolding discovered is_model_row
  new-IsTold before model rows told x u =
      present-append account x rows (discovered new_id account now model)
      ∙ rw (told x u, ==_refl account) refl

  added-is_unique :
      (before : Text → Bool) (model : ProviderModel) (rows : List ApiAccountModel)
      → IsTold before rows
      → known model.model_id ≡ false
      → is_unique (rows ++ discovered new_id account now model ∷ [])
        ≡ is_unique rows && not (before model.model_id)
  unfolding discovered
  added-is_unique before model rows told u =
      is_unique-append rows (discovered new_id account now model) ∙ rw (told model.model_id u) refl

  -- The rows of the loop are unique when the rows before were, and no unknown model came twice.
  see_models-is_unique :
      (models : List ProviderModel) (before : Text → Bool) (rows : List ApiAccountModel)
      → IsTold before rows
      → is_unique (see_models new_id account now known models rows)
        ≡ is_unique rows && once known before models
  unfolding see_models
  see_models-is_unique [] before rows told = ground arith
  see_models-is_unique (model ∷ models) before rows told =
      elim (Bool-cases (known model.model_id)) [
        | inl k ↦ rw k (
            see_models-is_unique models (and_before before model)
              (map (seen_in account now model) rows) (old-IsTold before model rows k told)
            ∙ rw
                (is_unique-map (seen_in account now model) (seen_in-account_id account now model)
                  (seen_in-provider_model_id account now model) rows)
                refl)
        | inr u ↦ rw u (
            see_models-is_unique models (and_before before model)
              (rows ++ discovered new_id account now model ∷ []) (new-IsTold before model rows told)
            ∙ rw (added-is_unique before model rows told u)
                (and_assoc (is_unique rows) (not (before model.model_id)) _))
      ]
    where
      and_assoc : (a b c : Bool) → ((a && b) && c) ≡ (a && ((false || b) && c))
      and_assoc a b c = ground arith

-- The two ways in which a synchronisation may go.
pub data Syncs (account : ℕ) (models : List ProviderModel) (rows : List ApiAccountModel)
    (result : Result IntegrityError (List ApiAccountModel)) : Type 0 where
  -- no model that the account does not have is listed twice
  synced :
      (rows' : List ApiAccountModel)
      → once (present account rows) (λ x. false) models ≡ true
      → result ≡ ok rows'
      → is_unique rows' ≡ true
      → All (IsAsListed account (lists models)) rows'
      → Syncs account models rows result
  repeated :
      once (present account rows) (λ x. false) models ≡ false
      → result ≡ err duplicate_model
      → Syncs account models rows result

module _ (new_id : Text → ℕ) (account now : ℕ) where
  written-is_unique :
      (models : List ProviderModel) (rows : List ApiAccountModel)
      → is_unique rows ≡ true
      → is_unique (
          see_models new_id account now
            (present account rows)
            models
            (map (withdrawn account) rows))
        ≡ once (present account rows) (λ x. false) models
  written-is_unique models rows unique =
      see_models-is_unique new_id account now (present account rows) models (λ x. false)
        (map (withdrawn account) rows)
        (λ x u.
          present-map (withdrawn account) (withdrawn-account_id account)
            (withdrawn-provider_model_id account) account x rows
          ∙ u)
      ∙ rw
          (
            is_unique-map (withdrawn account) (withdrawn-account_id account)
                (withdrawn-provider_model_id account) rows,
            unique,
          )
          refl

  -- A synchronisation of a table that keeps its constraint goes one of two ways. Where the provider
  -- lists no model twice of which the account has no row, it succeeds, the table keeps the
  -- constraint, and a row of the account that comes from the provider is available exactly when the
  -- provider lists its model. Where it lists such a model twice, the whole request fails.
  pub sync_rows-Syncs :
      (models : List ProviderModel) (rows : List ApiAccountModel)
      → is_unique rows ≡ true
      → Syncs account models rows (sync_rows new_id account now models rows)
  unfolding sync_rows
  sync_rows-Syncs models rows unique =
      let kept = written-is_unique models rows unique in
      elim (Bool-cases (once (present account rows) (λ x. false) models)) [
        | inl t ↦
            synced _ t (rw (kept, t) refl) (kept ∙ t)
              (see_models-IsAsListed new_id account now models rows)
        | inr f ↦ repeated f (rw (kept, f) refl)
      ]
