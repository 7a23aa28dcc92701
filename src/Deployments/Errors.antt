-- ===== src/Deployments/Errors.antt =====
-- The codes of `DeploymentError`, and the HTTP status that `deployment_error` of
-- apps/api/src/ai_infra_api/api/deployments.py answers with.
use ai_infra_console.Prelude.{ℕ}

pub data DeploymentError : Type 0 where
  unsupported_vllm_argument invalid_vllm_argument : DeploymentError
  server_not_found server_deployment_not_allowed server_offline : DeploymentError
  agent_unavailable docker_unavailable agent_deployment_disabled : DeploymentError
  gpu_unavailable gpu_server_mismatch insufficient_gpus : DeploymentError
  model_file_not_found model_file_unavailable unsupported_model_format : DeploymentError
  model_directory_unavailable model_deletion_active : DeploymentError
  deployment_name_conflict deployment_port_conflict : DeploymentError
  invalid_deployment_action deployment_operation_conflict : DeploymentError
  deployment_not_running deployment_gpu_conflict deployment_not_retryable : DeploymentError
  stale_deployment_generation invalid_deployment_lease expired_deployment_lease : DeploymentError
  deployment_operation_not_found deployment_operation_not_active : DeploymentError
  deployment_not_found deployment_state_mismatch : DeploymentError
  api_test_invalid_response : DeploymentError

abbrev pub deployment_error : DeploymentError → ℕ
deployment_error deployment_not_found = 404
deployment_error deployment_operation_not_found = 404
deployment_error model_file_not_found = 404
deployment_error server_not_found = 404
deployment_error deployment_name_conflict = 409
deployment_error deployment_port_conflict = 409
deployment_error deployment_gpu_conflict = 409
deployment_error deployment_operation_conflict = 409
deployment_error model_deletion_active = 409
deployment_error server_offline = 409
deployment_error agent_unavailable = 409
deployment_error docker_unavailable = 409
deployment_error agent_deployment_disabled = 409
deployment_error gpu_unavailable = 409
deployment_error insufficient_gpus = 409
deployment_error deployment_not_running = 409
deployment_error deployment_not_retryable = 409
deployment_error _ = 422
