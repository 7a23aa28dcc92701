-- ===== src/Agent/Errors.antt =====
-- The codes of `ModelTaskExecutionError` and `DeploymentExecutionError`.

pub data ExecutionError : Type 0 where
  -- an `OSError` that the executors do not catch
  os_error : ExecutionError
  -- model_tasks.py
  cancelled invalid_source_id model_root_symlink model_root_unavailable : ExecutionError
  model_root_not_allowed invalid_target_path target_outside_model_root : ExecutionError
  target_symlink_parent target_path_mismatch model_mutations_disabled : ExecutionError
  delete_target_symlink delete_target_special_file delete_identity_mismatch : ExecutionError
  -- deployment_runtime.py
  unsupported_vllm_argument invalid_vllm_argument foreign_container_conflict : ExecutionError
  deployments_disabled vllm_image_not_allowed deployment_gpu_count_mismatch : ExecutionError
  deployment_port_conflict managed_container_missing : ExecutionError
  deployment_model_symlink deployment_model_unavailable : ExecutionError
  deployment_root_not_allowed deployment_model_outside_root : ExecutionError
  deployment_model_identity_mismatch vllm_image_unavailable : ExecutionError
  docker_operation_failed : ExecutionError
