-- ===== src/Scenario.antt =====
-- Concrete databases and requests, on which the theorems are applied.
pub mod Tasks
pub mod Requests
pub mod Texts
pub mod Machines
pub mod Deployments
pub mod Runtime
pub mod Agents
pub mod Syncs
pub mod Containers
pub mod Reports
use ai_infra_console.Prelude.{ℕ, Text, text, Bool, true, Option, none, some, List, [], ◌∷◌}
use ai_infra_console.Strings.{split}
use ai_infra_console.Db.{Db, empty_db}
use ai_infra_console.Db.Inventory.{Server, ServerAgent, ServerModelDirectory, Model, ModelFile}
use ai_infra_console.ModelTasks.Paths.{PurePath, kept_parts, huggingface}
use ai_infra_console.ModelTasks.Creation.{DownloadCreateRequest}
use ai_infra_console.ModelTasks.Steps.{Central}

-- A digest that is no hash, and a parser of paths without a drive.
abbrev pub marked : Text → Text
marked s = b'#' ∷ s

abbrev pub parse_backslashes : Text → PurePath
parse_backslashes s = record {
  separator = text "\\";
  anchor = [];
  parts = kept_parts (split b'\\' s);
}

abbrev pub server_a : Server
server_a = record {
  id = 1;
  name = text "gpu-a";
  hostname = none;
  host = some (text "10.0.0.4");
  type = text "gpu";
  status = text "online";
}

abbrev pub agent_a : ServerAgent
agent_a = record { id = 1; server_id = 1; token_hash = some (text "#agent"); revoked_at = none }

abbrev pub models_directory : ServerModelDirectory
models_directory = record {
  id = 3;
  server_id = 1;
  path = text "/models";
  is_default = true;
  is_allowed = true;
  is_available = true;
}

abbrev pub mutable_names : List Text
mutable_names = text "gpu-b" ∷ text "gpu-a" ∷ []

-- A server with an agent and a directory for models, and nothing else.
abbrev pub fresh_db : Db
fresh_db = record empty_db {
  servers = server_a ∷ [];
  server_agents = agent_a ∷ [];
  directories = models_directory ∷ [];
}

abbrev pub qwen : DownloadCreateRequest
qwen = record {
  provider = huggingface;
  source_id = text "Qwen/Qwen3-8B";
  revision = text "main";
  server_id = 1;
  directory_id = 3;
}

abbrev pub llama : DownloadCreateRequest
llama = record qwen { source_id = text "meta/llama" }

abbrev pub fresh_central : Central
fresh_central = record { now = 0; db = fresh_db }
