-- ===== src/ApiResources.antt =====
-- apps/api/src/ai_infra_api/services/api_resources: the catalogue of provider accounts.
pub mod Sync
pub mod Runs
