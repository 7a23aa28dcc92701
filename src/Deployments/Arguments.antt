-- ===== src/Deployments/Arguments.antt =====
-- `validate_extra_arguments`: the extra vLLM options of a deployment.
pub mod Grammar
use ai_infra_console.Prelude.{
  ℕ, zero, suc, Text, text, text_eq, Option, none, some, List, [], ◌∷◌, Result, ok, err, ◌>>=◌,
  if◌then◌else◌,
}
use ai_infra_console.Strings.{starts_with}
use ai_infra_console.Deployments.Errors.{
  DeploymentError, unsupported_vllm_argument, invalid_vllm_argument,
}

-- `FLAG_ARITY.get(flag)`
unfoldable pub flag_arity : Text → Option ℕ
unfolding text text_eq
flag_arity flag =
    if text_eq flag (text "--enable-prefix-caching")
    then some 0
    else if text_eq flag (text "--disable-log-requests")
    then some 0
    else if text_eq flag (text "--enforce-eager")
    then some 0
    else if text_eq flag (text "--enable-chunked-prefill")
    then some 0
    else if text_eq flag (text "--max-num-seqs")
    then some 1
    else if text_eq flag (text "--task")
    then some 1
    else if text_eq flag (text "--quantization")
    then some 1
    else if text_eq flag (text "--tokenizer-mode")
    then some 1
    else none

-- The loop over `index`, from the arguments that are left; the result is `normalized` from there
-- on. Of an option with a value the next argument is taken, unless it is an option or missing.
unfoldable pub validate_extra_arguments : List Text → Result DeploymentError (List Text)
unfolding text starts_with
validate_extra_arguments [] = ok []
validate_extra_arguments (flag ∷ []) = elim (flag_arity flag) [
  | none ↦ err unsupported_vllm_argument
  | some zero ↦ ok (flag ∷ [])
  | some (suc n) ↦ err invalid_vllm_argument
]
validate_extra_arguments (flag ∷ value ∷ rest) = elim (flag_arity flag) [
  | none ↦ err unsupported_vllm_argument
  | some zero ↦ do normalized ← validate_extra_arguments (value ∷ rest); ok (flag ∷ normalized)
  | some (suc n) ↦
      let taken : Result DeploymentError (List Text) = do
        normalized ← validate_extra_arguments rest
        ok (flag ∷ value ∷ normalized)
      in if starts_with (text "--") value then err invalid_vllm_argument else taken
]
