-- ===== src/ModelTasks.antt =====
-- apps/api/src/ai_infra_api/services/model_tasks.py: the download and deletion tasks of models.
-- An administrator queues, cancels and retries tasks; the agent of a server claims one at a time
-- under a lease, reports its progress and completes it. A service call raises a `ModelTaskError`
-- or returns the new database: a request whose call raises is rolled back by `get_db`.
pub mod Errors
pub mod Paths
pub mod Leases
pub mod Downloads
pub mod Deletions
pub mod Claims
pub mod Creation
pub mod DeleteRequests
pub mod Steps
