-- ===== src/Agent/Arguments.antt =====
-- `_validate_extra_arguments` and `build_vllm_arguments` of deployment_runtime.py. `str` of a double
-- is the parameter `show_float`.
pub mod Agreement
use ai_infra_console.Prelude.{
  ℕ, zero, suc, Text, text, text_eq, Bool, true, false, Option, none, some, List, [], ◌∷◌, ◌++◌,
  Result, ok, err, ◌>>=◌, if◌then◌else◌,
}
use ai_infra_console.Strings.{starts_with}
use ai_infra_console.Db.Deployments.{Float64, DeploymentConfig}
use ai_infra_console.Deployments.Eligibility.{decimal}
use ai_infra_console.Deployments.Commands.{DeploymentCreateCommand}
use ai_infra_console.Agent.Errors.{ExecutionError, unsupported_vllm_argument, invalid_vllm_argument}

-- `FLAG_ARITY.get(flag)`, over the agent's own table
flag_arity : Text → Option ℕ
unfolding text text_eq
flag_arity flag =
    if text_eq flag (text "--enable-prefix-caching")
    then some 0
    else if text_eq flag (text "--disable-log-requests")
    then some 0
    else if text_eq flag (text "--enforce-eager")
    then some 0
    else if text_eq flag (text "--enable-chunked-prefill")
    then some 0
    else if text_eq flag (text "--max-num-seqs")
    then some 1
    else if text_eq flag (text "--task")
    then some 1
    else if text_eq flag (text "--quantization")
    then some 1
    else if text_eq flag (text "--tokenizer-mode")
    then some 1
    else none

-- The loop over `index`, from the arguments that are left, with what it appended so far.
agent_loop : List Text → List Text → Result ExecutionError (List Text)
unfolding flag_arity starts_with text
agent_loop [] normalized = ok normalized
agent_loop (flag ∷ []) normalized = elim (flag_arity flag) [
  | none ↦ err unsupported_vllm_argument
  | some zero ↦ ok (normalized ++ flag ∷ [])
  | some (suc n) ↦ err invalid_vllm_argument
]
agent_loop (flag ∷ value ∷ rest) normalized = elim (flag_arity flag) [
  | none ↦ err unsupported_vllm_argument
  | some zero ↦ agent_loop (value ∷ rest) (normalized ++ flag ∷ [])
  | some (suc n) ↦
      let taken = agent_loop rest ((normalized ++ flag ∷ []) ++ value ∷ []) in
      if starts_with (text "--") value then err invalid_vllm_argument else taken
]

unfoldable pub agent_validate_extra_arguments : List Text → Result ExecutionError (List Text)
unfolding agent_loop
agent_validate_extra_arguments arguments = agent_loop arguments []

module _ (show_float : Float64 → Text) where
  unfoldable pub build_vllm_arguments : DeploymentCreateCommand → Result ExecutionError (List Text)
  unfolding text decimal agent_validate_extra_arguments
  build_vllm_arguments command = do
    extra ← agent_validate_extra_arguments command.config.extra_arguments
    ok (
        (text "--model"
          ∷ text "/model"
          ∷ text "--host"
          ∷ text "0.0.0.0"
          ∷ text "--port"
          ∷ decimal command.port
          ∷ text "--tensor-parallel-size"
          ∷ decimal command.config.tensor_parallel_size
          ∷ text "--gpu-memory-utilization"
          ∷ show_float command.config.gpu_memory_utilization
          ∷ text "--max-model-len"
          ∷ decimal command.config.max_model_length
          ∷ text "--dtype"
          ∷ command.config.data_type
          ∷ (if command.config.trust_remote_code then text "--trust-remote-code" ∷ [] else []))
        ++ extra)
