-- ===== src/Agent/Arguments/Agreement.antt =====
-- The agent accepts exactly the options that the central service accepts.
use mathlib.Core.List.{append_assoc, append-nil}
use ai_infra_console.Prelude.{
  Text, text, ◌≡◌, refl, sym, ◌∙◌, ap, Bool-cases, List, [], ◌∷◌, ◌++◌, Result, ok, err, inl, inr,
  ◌>>=◌,
}
use ai_infra_console.Strings.{starts_with}
use ai_infra_console.Deployments.Errors.{DeploymentError}
use ai_infra_console.Deployments.Errors
use ai_infra_console.Deployments.Arguments
use ai_infra_console.Deployments.Arguments.{validate_extra_arguments}
use ai_infra_console.Deployments.Arguments.Grammar.{arity-cases}
use ai_infra_console.Agent.Errors.{ExecutionError, unsupported_vllm_argument, invalid_vllm_argument}
use ai_infra_console.Agent.Arguments.{flag_arity, agent_loop, agent_validate_extra_arguments}

-- The agent's code for an error of the central check.
abbrev pub as_execution_error : DeploymentError → ExecutionError
as_execution_error Errors.DeploymentError.invalid_vllm_argument = invalid_vllm_argument
as_execution_error _ = unsupported_vllm_argument

-- The agent's outcome for one of the central service, after what it has appended already.
abbrev pub as_execution :
    List Text → Result DeploymentError (List Text) → Result ExecutionError (List Text)
as_execution before (ok arguments) = ok (before ++ arguments)
as_execution before (err e) = err (as_execution_error e)

same_arity : (flag : Text) → flag_arity flag ≡ Arguments.flag_arity flag
unfolding flag_arity Arguments.flag_arity
same_arity flag = refl

as_execution-cons :
    (before : List Text) (flag : Text) (r : Result DeploymentError (List Text))
    → as_execution (before ++ flag ∷ []) r
      ≡ as_execution before (r >>= λ normalized. ok (flag ∷ normalized))
as_execution-cons before flag (ok normalized) = ap ok (append_assoc before (flag ∷ []) normalized)
as_execution-cons before flag (err e) = refl

as_execution-cons_two :
    (before : List Text) (flag value : Text) (r : Result DeploymentError (List Text))
    → as_execution ((before ++ flag ∷ []) ++ value ∷ []) r
      ≡ as_execution before (r >>= λ normalized. ok (flag ∷ value ∷ normalized))
as_execution-cons_two before flag value (ok normalized) = ap ok (
    append_assoc (before ++ flag ∷ []) (value ∷ []) normalized
    ∙ append_assoc before (flag ∷ []) (value ∷ normalized))
as_execution-cons_two before flag value (err e) = refl

loop-agrees :
    (arguments before : List Text)
    → agent_loop arguments before ≡ as_execution before (validate_extra_arguments arguments)
unfolding agent_loop validate_extra_arguments
loop-agrees [] before = ap ok (sym (append-nil before))
loop-agrees (flag ∷ []) before = elim (arity-cases flag) [
  | inl a ↦ rw (agent_loop, validate_extra_arguments, same_arity flag, a) refl
  | inr (inl a) ↦ rw (agent_loop, validate_extra_arguments, same_arity flag, a) refl
  | inr (inr a) ↦ rw (agent_loop, validate_extra_arguments, same_arity flag, a) refl
]
loop-agrees (flag ∷ value ∷ rest) before =
    let switch =
      loop-agrees (value ∷ rest) (before ++ flag ∷ [])
      ∙ as_execution-cons before flag (validate_extra_arguments (value ∷ rest)) in
    let valued =
      loop-agrees rest ((before ++ flag ∷ []) ++ value ∷ [])
      ∙ as_execution-cons_two before flag value (validate_extra_arguments rest) in
    elim (arity-cases flag) [
      | inl a ↦ rw (agent_loop, validate_extra_arguments, same_arity flag, a) refl
      | inr (inl a) ↦ rw (agent_loop, validate_extra_arguments, same_arity flag, a) switch
      | inr (inr a) ↦ elim (Bool-cases (starts_with (text "--") value)) [
        | inl dashed ↦ rw (agent_loop, validate_extra_arguments, same_arity flag, a, dashed) refl
        | inr plain ↦ rw (agent_loop, validate_extra_arguments, same_arity flag, a, plain) valued
      ]
    ]

-- The agent's check of the vLLM options is the central one: it accepts the same lists, returns
-- the same arguments, and refuses with the code that corresponds.
pub validate-agrees :
    (arguments : List Text)
    → agent_validate_extra_arguments arguments
      ≡ as_execution [] (validate_extra_arguments arguments)
unfolding agent_validate_extra_arguments
validate-agrees arguments = loop-agrees arguments []
