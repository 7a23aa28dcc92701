-- ===== src/Deployments/Arguments/Grammar.antt =====
-- `validate_extra_arguments` accepts exactly the sequences of known options, each with its value.
use ai_infra_console.Prelude.{
  Text, text, ◌≡◌, refl, ◌⊎◌, inl, inr, Bool-cases, false, none, some, List, [], ◌∷◌, ok, err,
  arith,
}
use ai_infra_console.Strings.{starts_with}
use ai_infra_console.Deployments.Errors.{
  DeploymentError, unsupported_vllm_argument, invalid_vllm_argument,
}
use ai_infra_console.Deployments.Arguments.{flag_arity, validate_extra_arguments}

-- The command lines that vLLM may be given.
pub data Allowed : List Text → Type 0 where
  done : Allowed []
  switch :
      {flag : Text} {rest : List Text}
      → flag_arity flag ≡ some 0
      → Allowed rest
      → Allowed (flag ∷ rest)
  valued :
      {flag value : Text} {rest : List Text}
      → flag_arity flag ≡ some 1
      → starts_with (text "--") value ≡ false
      → Allowed rest
      → Allowed (flag ∷ value ∷ rest)

pub arity-cases :
    (flag : Text)
    → (flag_arity flag ≡ none) ⊎ ((flag_arity flag ≡ some 0) ⊎ (flag_arity flag ≡ some 1))
unfolding flag_arity
arity-cases flag = ground arith

no_flag : {flag : Text} {rest : List Text} → flag_arity flag ≡ none → Allowed (flag ∷ rest) → ⊥
no_flag e (switch p r) = cc
no_flag e (valued p q r) = cc

after_switch :
    {flag : Text} {rest : List Text}
    → flag_arity flag ≡ some 0
    → Allowed (flag ∷ rest)
    → Allowed rest
after_switch e (switch p r) = r
after_switch e (valued p q r) = absurd (ground arith)

no_value : {flag : Text} → flag_arity flag ≡ some 1 → Allowed (flag ∷ []) → ⊥
no_value e (switch p r) = ground arith

after_value :
    {flag value : Text} {rest : List Text}
    → flag_arity flag ≡ some 1
    → Allowed (flag ∷ value ∷ rest)
    → (starts_with (text "--") value ≡ false) × Allowed rest
after_value e (switch p r) = absurd (ground arith)
after_value e (valued p q r) = (q, r)

abbrev pub Decided : List Text → Type 0
Decided arguments =
    (Allowed arguments × (validate_extra_arguments arguments ≡ ok arguments))
    ⊎ ((Allowed arguments → ⊥)
        × ((e : DeploymentError) × (validate_extra_arguments arguments ≡ err e)))

switch-Decided :
    (flag value : Text) (rest : List Text)
    → flag_arity flag ≡ some 0
    → Decided (value ∷ rest)
    → Decided (flag ∷ value ∷ rest)
unfolding validate_extra_arguments
switch-Decided flag value rest a (inl (ok_rest, e)) = inl (switch a ok_rest, ground arith)
switch-Decided flag value rest a (inr (bad, (c, e))) =
    inr (λ g. bad (after_switch a g), (c, ground arith))

valued-Decided :
    (flag value : Text) (rest : List Text)
    → flag_arity flag ≡ some 1
    → starts_with (text "--") value ≡ false
    → Decided rest
    → Decided (flag ∷ value ∷ rest)
unfolding validate_extra_arguments
valued-Decided flag value rest a v (inl (ok_rest, e)) = inl (valued a v ok_rest, ground arith)
valued-Decided flag value rest a v (inr (bad, (c, e))) =
    inr (λ g. bad (after_value a g).1, (c, ground arith))

-- The loop decides the grammar: a list of arguments is accepted, unchanged, if it is a sequence of
-- known options in which each option that takes a value is followed by one that is no option,
-- and every other list is refused.
pub validate-decides : (arguments : List Text) → Decided arguments
unfolding validate_extra_arguments
validate-decides [] = inl (done, refl)
validate-decides (flag ∷ []) = elim (arity-cases flag) [
  | inl a ↦ inr (no_flag a, (unsupported_vllm_argument, ground arith))
  | inr (inl a) ↦ inl (switch a done, ground arith)
  | inr (inr a) ↦ inr (no_value a, (invalid_vllm_argument, ground arith))
]
validate-decides (flag ∷ value ∷ rest) =
    let shorter = validate-decides rest in
    let tail = validate-decides (value ∷ rest) in
    elim (arity-cases flag) [
      | inl a ↦ inr (no_flag a, (unsupported_vllm_argument, ground arith))
      | inr (inl a) ↦ switch-Decided flag value rest a tail
      | inr (inr a) ↦ elim (Bool-cases (starts_with (text "--") value)) [
        | inl v ↦ inr (λ g. cc (after_value a g).0, (invalid_vllm_argument, ground arith))
        | inr v ↦ valued-Decided flag value rest a v shorter
      ]
    ]
