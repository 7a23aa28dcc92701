-- ===== src/Agent.antt =====
-- apps/agent/src/ai_infra_agent: the agent of a GPU server, as far as it works on the commands of
-- the central service: it checks a command against its local policy, downloads and deletes
-- models, runs containers, and reports.
pub mod Errors
pub mod Arguments
pub mod Files
pub mod Repository
pub mod Downloads
pub mod Runtime
pub mod Deletions
pub mod Deployments
