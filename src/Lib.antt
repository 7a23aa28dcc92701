-- ===== src/Lib.antt =====
-- The verification library of the AI infrastructure console.
--
-- The console is a central service (apps/api, Python) with a database, to which one agent on each
-- GPU server (apps/agent) reports. Administrators ask the service to download or delete models and
-- to create, start, stop, restart or delete vLLM deployments; an agent polls for the next command
-- of its server, works on it under a lease, and reports. This library models the two services that
-- keep that state, apps/api/src/ai_infra_api/services/model_tasks.py and
-- apps/api/src/ai_infra_api/services/deployments.py, with the rows of
-- apps/api/src/ai_infra_api/db/models.py and the requests and commands of
-- apps/api/src/ai_infra_api/schemas; and of the agent what works on the commands,
-- apps/agent/src/ai_infra_agent/model_tasks.py, task_supervisor.py, deployment_runtime.py and
-- deployment_supervisor.py; and the synchronisation of models of
-- apps/api/src/ai_infra_api/services/api_resources/catalog.py.
--
-- The files:
--   Prelude.antt      lists of rows with their queries and updates, texts, results, sorting
--   Json.antt         decoded JSON values, for the telemetry of an agent
--   Strings.antt      strip, split and the sanitisers _safe_error and _safe_text
--   Db.antt           the database: a record of tables, each a list of rows
--   ModelTasks.antt   services/model_tasks.py
--     Errors            ModelTaskError, and task_error of api/downloads.py
--     Paths             validate_repository_id, build_target_path
--     Leases            _verify_lease
--     Downloads         cancel, retry, progress and completion of a download
--     Deletions         completion of a deletion
--     Claims            claim_model_task with its candidates
--     Creation          _eligible_target, create_download_task
--     DeleteRequests    create_delete_task
--     Steps             all these as one transition system
--   Deployments.antt  services/deployments.py
--     Errors            DeploymentError, and deployment_error of api/deployments.py
--     Arguments         validate_extra_arguments
--     Placement         _plan_gpus, _latest_gpu_metrics, _active_gpu_allocations
--     Eligibility       _eligible_server, _runtime_capability, _endpoint
--     Creation          create_deployment
--     Actions           queue_deployment_action, retry_deployment, and their handlers
--     Commands          the commands that an agent is sent, container_name_for
--     Operations        claim_deployment_operation
--     Reports           renew_deployment_operation, complete_deployment_operation
--     Runtime           apply_runtime_report, list_runtime_expectations
--   Agent.antt        apps/agent/src/ai_infra_agent
--     Errors            the codes of ModelTaskExecutionError and DeploymentExecutionError
--     Files             the file system that model_tasks.py asks, an interface
--     Repository        _repository_parts, _root, _strict_target, _expected_download_target
--     Downloads         DownloadProgress of model_tasks.py
--       Supervisor        ModelTaskSupervisor of task_supervisor.py
--     Deletions         execute_delete, _manifest
--     Deployments       DeploymentSupervisor of deployment_supervisor.py
--     Arguments         _validate_extra_arguments, build_vllm_arguments of deployment_runtime.py
--     Runtime           _validated_model_path
--       Docker            DockerDeploymentRuntime, over the daemon as an interface
--       Fixture           FixtureDeploymentRuntime
--       Logs              _log_entries
--   ApiResources.antt services/api_resources/catalog.py
--     Sync              what sync_models writes to the rows of an account's models
--     Runs              _start_sync and the end of a run, with requests that overlap
--   Scenario.antt     concrete databases and requests, to which the theorems are applied
--
-- How the code is read. A service function is a function from the database to a result: an error
-- code, or a value and the database after it. An error that is raised undoes the request's
-- transaction, so an error carries no database. An id is a number, an instant its number of
-- microseconds, a text the list of its code points. Where the code takes the clock, a fresh id, a
-- lease token or a setting, the model has an argument. A query without an order takes the first
-- row of the table; where the order of a query has ties, the model takes the first of the least
-- rows. A claim locks the row that it takes; the model runs one request after another, so two
-- claims of one server at the same time are outside it. Only the runs of synchronisations are
-- modelled with requests that overlap: what one of them flushes, no other sees before its commit.
-- A configuration of a deployment is stored as JSON and read back by the same schema, and is kept
-- as its record.
--
-- Parameters, for code that is not of this repository: digest is the hexadecimal SHA-256 of a
-- token, parse_windows is PureWindowsPath, is_ipv6 is ipaddress.ip_address(host).version == 6,
-- show_id and show_float are str of a UUID and of a double, rate is a quotient of doubles cut to an
-- integer. No theorem assumes anything of them. The file system and the Docker daemon are records
-- of their calls over a state; what a theorem assumes of them is a named record (IsPlain: the
-- root and the paths of plain names below it are no links; IsDaemon: a call that goes through has
-- its effect on the container). A utilization is the bit pattern of a double that is not negative,
-- whose order is that of the numbers.
--
-- No loop of these services needs fuel but the decimal digits of a number: decimal n has n + 1 of
-- it, and each step divides by ten. container_name_for takes the 32 digits of a 128-bit id.
--
-- An agent talks to the central service by requests: the agent's theorems that mention a report
-- hold of the service's own functions, with a refused request as a failed one.
--
-- Not modelled: the user interface (apps/web); of the agent the transfer of the files, the
-- observations of Docker containers and the reconciliation, the collectors and the client with its
-- authentication errors; the listings and the responses built from rows,
-- metrics, authentication, the rest of the api resources (providers, accounts, credentials, usage),
-- audit records, notifications and migrations.
pub mod Prelude
pub mod Json
pub mod Db
pub mod Strings
pub mod ModelTasks
pub mod Deployments
pub mod Agent
pub mod ApiResources
pub mod Scenario
