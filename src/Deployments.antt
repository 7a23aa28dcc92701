-- ===== src/Deployments.antt =====
-- apps/api/src/ai_infra_api/services/deployments.py: vLLM deployments on the GPUs of managed
-- servers. An administrator creates a deployment, which reserves GPUs and a port, and queues
-- operations on it; the agent of a server claims one operation at a time under a lease, renews
-- and completes it, and reports what its containers do.
pub mod Errors
pub mod Arguments
pub mod Placement
pub mod Eligibility
pub mod Creation
pub mod Actions
pub mod Commands
pub mod Operations
pub mod Reports
pub mod Runtime
