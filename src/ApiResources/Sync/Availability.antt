-- ===== src/ApiResources/Sync/Availability.antt =====
-- The loop of a synchronisation leaves exactly the listed models of the provider available.
use ai_infra_console.Prelude.{
  ℕ, Text, text_eq, text_eq_iff, text_eq_refl, ◌≡◌, inl, inr, refl, sym, ◌∙◌, ap, subst, Bool, true,
  false, ◌||◌, List, [], ◌∷◌, ◌++◌, map, arith, exists, All, Elem, Bool-cases, if◌then◌else◌,
}
use ai_infra_console.ApiResources.Sync.{
  ApiAccountModel, ProviderModel, is_model_row, is_provided, withdrawn, seen, seen_in, discovered,
  see_models,
}

-- The provider lists the model.
abbrev pub lists : List ProviderModel → Text → Bool
lists [] model_id = false
lists (model ∷ models) model_id = text_eq model_id model.model_id || lists models model_id

-- After `models`, a provided row is available as the list says, from what it was.
abbrev pub IsAsListed : ℕ → (Text → Bool) → ApiAccountModel → Type 0
IsAsListed account listed row =
    is_provided account row ≡ true → row.is_available ≡ listed row.provider_model_id

module _ (new_id : Text → ℕ) (account now : ℕ) (known : Text → Bool) where
  -- A row so far: as listed by the models that were seen, and available if it is new.
  abbrev Holds : (Text → Bool) → ApiAccountModel → Type 0
  Holds listed row =
      (is_provided account row ≡ true)
      → (row.is_available ≡ listed row.provider_model_id)
        × (known row.provider_model_id ≡ false → row.is_available ≡ true)

  abbrev also : (Text → Bool) → ProviderModel → Text → Bool
  also listed model model_id = listed model_id || text_eq model_id model.model_id

  also-true :
      (listed : Text → Bool) (model : ProviderModel) (x : Text)
      → text_eq x model.model_id ≡ true
      → also listed model x ≡ true
  also-true listed model x h = ground arith

  also-false :
      (listed : Text → Bool) (model : ProviderModel) (x : Text)
      → text_eq x model.model_id ≡ false
      → listed x ≡ also listed model x
  also-false listed model x h = ground arith

  other_model :
      (model : ProviderModel) (row : ApiAccountModel)
      → is_provided account row ≡ true
      → is_model_row account model.model_id row ≡ false
      → text_eq row.provider_model_id model.model_id ≡ false
  unfolding is_provided is_model_row
  other_model model row p h = ground arith

  same_model :
      (model : ProviderModel) (row : ApiAccountModel)
      → is_model_row account model.model_id row ≡ true
      → text_eq row.provider_model_id model.model_id ≡ true
  unfolding is_model_row
  same_model model row h = ground arith

  seen-Holds :
      (listed : Text → Bool) (model : ProviderModel) (row : ApiAccountModel)
      → Holds listed row
      → Holds (also listed model) (seen_in account now model row)
  unfolding seen_in seen
  seen-Holds listed model row h = elim (Bool-cases (is_model_row account model.model_id row)) [
    | inl t ↦ subst branch (sym t) (λ p.
        (sym (also-true listed model row.provider_model_id (same_model model row t)), λ k. refl))
    | inr f ↦ subst branch (sym f) (λ p. (
      (h p).0 ∙ also-false listed model row.provider_model_id (other_model model row p f),
      (h p).1,
    ))
  ]
    where
      branch : Bool → Type 0
      branch b = Holds (also listed model) (if b then seen now model row else row)

  kept-Holds :
      (listed : Text → Bool) (model : ProviderModel) (row : ApiAccountModel)
      → known model.model_id ≡ false
      → Holds listed row
      → Holds (also listed model) row
  kept-Holds listed model row k h p =
      elim (Bool-cases (text_eq row.provider_model_id model.model_id)) [
        | inl t ↦
            let unknown : known row.provider_model_id ≡ false =
              ap known ((text_eq_iff row.provider_model_id model.model_id).0 t) ∙ k in
            ((h p).1 unknown ∙ sym (also-true listed model row.provider_model_id t), (h p).1)
        | inr f ↦ ((h p).0 ∙ also-false listed model row.provider_model_id f, (h p).1)
      ]

  new-Holds :
      (listed : Text → Bool) (model : ProviderModel)
      → Holds (also listed model) (discovered new_id account now model)
  unfolding discovered
  new-Holds listed model p =
      (sym (also-true listed model model.model_id (text_eq_refl model.model_id)), λ k. refl)

  seen-All-Holds :
      (listed : Text → Bool) (model : ProviderModel) (rows : List ApiAccountModel)
      → All (Holds listed) rows
      → All (Holds (also listed model)) (map (seen_in account now model) rows)
  seen-All-Holds listed model [] h = tt
  seen-All-Holds listed model (row ∷ rows) h =
      (seen-Holds listed model row h.0, seen-All-Holds listed model rows h.1)

  grown-Holds :
      (listed : Text → Bool) (model : ProviderModel) (rows : List ApiAccountModel)
      → known model.model_id ≡ false
      → All (Holds listed) rows
      → All (Holds (also listed model)) (rows ++ discovered new_id account now model ∷ [])
  grown-Holds listed model [] k h = (new-Holds listed model, tt)
  grown-Holds listed model (row ∷ rows) k h =
      (kept-Holds listed model row k h.0, grown-Holds listed model rows k h.1)

  -- What is listed after some models and then others.
  abbrev after : (Text → Bool) → List ProviderModel → Text → Bool
  after listed [] = listed
  after listed (model ∷ models) = after (also listed model) models

  see_models-Holds :
      (listed : Text → Bool) (models : List ProviderModel) (rows : List ApiAccountModel)
      → All (Holds listed) rows
      → All (Holds (after listed models)) (see_models new_id account now known models rows)
  unfolding see_models
  see_models-Holds listed [] rows h = h
  see_models-Holds listed (model ∷ models) rows h = elim (Bool-cases (known model.model_id)) [
    | inl t ↦
        subst branch (sym t)
          (see_models-Holds (also listed model) models _ (seen-All-Holds listed model rows h))
    | inr f ↦
        subst branch (sym f)
          (see_models-Holds (also listed model) models _ (grown-Holds listed model rows f h))
  ]
    where
      branch : Bool → Type 0
      branch b = All (Holds (after (also listed model) models)) (
          if b
          then see_models new_id account now known models (map (seen_in account now model) rows)
          else see_models new_id account now known models
              (rows ++ discovered new_id account now model ∷ []))

  after-lists :
      (listed : Text → Bool) (models : List ProviderModel) (x : Text)
      → after listed models x ≡ listed x || lists models x
  after-lists listed [] x = ground arith
  after-lists listed (model ∷ models) x =
      after-lists (also listed model) models x
      ∙ or_assoc (listed x) (text_eq x model.model_id) (lists models x)
    where
      or_assoc : (a b c : Bool) → ((a || b) || c) ≡ (a || (b || c))
      or_assoc a b c = ground arith

exists-Elem :
    (test : ApiAccountModel → Bool) (rows : List ApiAccountModel) (row : ApiAccountModel)
    → Elem row rows
    → test row ≡ true
    → exists test rows ≡ true
unfolding exists
exists-Elem test [] row m h = absurd m
exists-Elem test (r ∷ rows) row (inl e) h = rw (sym e, h) refl
exists-Elem test (r ∷ rows) row (inr m) h = ground (arith, exists-Elem test rows row m h)

provided-row :
    (account : ℕ) (row : ApiAccountModel)
    → is_provided account row ≡ true
    → is_model_row account row.provider_model_id row ≡ true
unfolding is_provided is_model_row
provided-row account row h = ground (arith, text_eq_refl row.provider_model_id)

module _ (new_id : Text → ℕ) (account now : ℕ) where
  abbrev known_in : List ApiAccountModel → Text → Bool
  known_in rows model_id = exists (is_model_row account model_id) rows

  withdrawn-Holds :
      (all : List ApiAccountModel) (row : ApiAccountModel)
      → Elem row all
      → Holds new_id account now (known_in all) (λ model_id. false) (withdrawn account row)
  unfolding withdrawn
  withdrawn-Holds all row m = elim (Bool-cases (is_provided account row)) [
    | inl t ↦ subst branch (sym t) (λ p. (
      refl,
      λ unknown. absurd (
          never (
            sym (
              exists-Elem (is_model_row account row.provider_model_id) all row m
                (provided-row account row t))
            ∙ unknown)),
    ))
    | inr f ↦ subst branch (sym f) (λ p. absurd (never (sym p ∙ f)))
  ]
    where
      never : true ≡ false → ⊥
      never e = cc

      branch : Bool → Type 0
      branch b =
          Holds new_id account now (known_in all) (λ model_id. false)
            (if b then record row { is_available = false } else row)

  All-withdrawn-Holds :
      (all rows : List ApiAccountModel)
      → ((row : ApiAccountModel) → Elem row rows → Elem row all)
      → All
          (Holds new_id account now (known_in all) (λ model_id. false))
          (map (withdrawn account) rows)
  All-withdrawn-Holds all [] inside = tt
  All-withdrawn-Holds all (row ∷ rows) inside = (
    withdrawn-Holds all row (inside row (inl refl)),
    All-withdrawn-Holds all rows (λ r m. inside r (inr m)),
  )

  listed-All :
      (all : List ApiAccountModel) (models : List ProviderModel) (rows : List ApiAccountModel)
      → All
          (Holds new_id account now
            (known_in all)
            (after new_id account now (known_in all) (λ model_id. false) models))
          rows
      → All (IsAsListed account (lists models)) rows
  listed-All all models [] h = tt
  listed-All all models (row ∷ rows) h = (
    λ p.
        (h.0 p).0
        ∙ after-lists new_id account now (known_in all) (λ model_id. false) models
            row.provider_model_id,
    listed-All all models rows h.1,
  )

  -- The rows that the loop leaves are available as the list says.
  pub see_models-IsAsListed :
      (models : List ProviderModel) (rows : List ApiAccountModel)
      → All
          (IsAsListed account (lists models))
          (see_models new_id account now (known_in rows) models (map (withdrawn account) rows))
  see_models-IsAsListed models rows = listed-All rows models _ (
      see_models-Holds new_id account now (known_in rows) (λ model_id. false) models
        (map (withdrawn account) rows) (All-withdrawn-Holds rows rows (λ row m. m)))
