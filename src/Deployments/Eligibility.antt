-- ===== src/Deployments/Eligibility.antt =====
-- `_eligible_server` with `_runtime_capability`, and `_endpoint`.
use ai_infra_console.Prelude.{
  ℕ, zero, suc, ◌+◌, ◌/◌, ◌%◌, Text, text, text_eq, Bool, true, false, ◌&&◌, not, Option, none,
  some, List, [], ◌∷◌, ◌++◌, ltb, ◌==◌, is_some, Result, ok, guard, found, ◌>>=◌, ◌>>◌, find, first,
  exists, if◌then◌else◌,
}
use ai_infra_console.Strings.{strip}
use ai_infra_console.Json.{Json, bool, get}
use ai_infra_console.Db.{Db}
use ai_infra_console.Db.Inventory.{Server, ServerAgent}
use ai_infra_console.Db.Deployments.{ServerMetric}
use ai_infra_console.Deployments.Errors.{
  DeploymentError, server_not_found, server_deployment_not_allowed, server_offline,
  agent_unavailable, docker_unavailable, agent_deployment_disabled,
}

-- `value is True`
unfoldable pub is_true : Json → Bool
is_true (bool b) = b
is_true _ = false

-- `_runtime_capability(metric)`: whether Docker is available, and whether the agent has opted in.
-- What is no dictionary has no fields.
unfoldable pub docker_available : Option ServerMetric → Bool
unfolding text get is_true
docker_available none = false
docker_available (some metric) =
    is_true
      (get (text "available") (get (text "docker") (get (text "runtimes") metric.runtime_info)))

unfoldable pub deployment_enabled : Option ServerMetric → Bool
unfolding text get is_true
deployment_enabled none = false
deployment_enabled (some metric) =
    is_true (get (text "deployment_enabled") (get (text "runtimes") metric.runtime_info))

pub is_allowed_name : Text → List Text → Bool
is_allowed_name name [] = false
is_allowed_name name (other ∷ others) =
    if text_eq name other then true else is_allowed_name name others

abbrev pub is_active_agent : ℕ → ServerAgent → Bool
is_active_agent server agent =
    agent.server_id == server && is_some agent.token_hash && not (is_some agent.revoked_at)

abbrev pub server_metric : ℕ → Db → Option ServerMetric
server_metric server db = first (λ metric. metric.server_id == server) db.server_metrics

abbrev pub server_id_of : Server → ℕ
server_id_of server = server.id

unfoldable pub eligible_server : List Text → ℕ → Db → Result DeploymentError Server
unfolding is_allowed_name
eligible_server names server_id db = do
  server ← found (find server_id_of server_id db.servers) server_not_found
  guard (is_allowed_name server.name names) server_deployment_not_allowed
  guard (text_eq server.status (text "online")) server_offline
  guard (exists (is_active_agent server.id) db.server_agents) agent_unavailable
  guard (docker_available (server_metric server.id db)) docker_unavailable
  guard (deployment_enabled (server_metric server.id db)) agent_deployment_disabled
  ok server

-- The decimal digits of a number, given fuel for them: `str(n)`.
unfoldable pub decimal_from : ℕ → ℕ → Text → Text
decimal_from zero n digits = digits
decimal_from (suc fuel) n digits =
    let rest = decimal_from fuel (n / 10) ((48 + n % 10) ∷ digits) in
    if ltb n 10 then (48 + n) ∷ digits else rest

unfoldable pub decimal : ℕ → Text
unfolding decimal_from
decimal n = decimal_from (n + 1) n []

-- `text or other` on an optional text: the empty one counts as missing
abbrev pub text_or : Option Text → Text → Text
text_or none other = other
text_or (some []) other = other
text_or (some (c ∷ s)) other = c ∷ s

-- `ipaddress.ip_address(host).version == 6` is the parameter `is_ipv6`, false for what is no address
module _ (is_ipv6 : Text → Bool) where
  unfoldable pub endpoint : Server → ℕ → Text
  unfolding text strip decimal
  endpoint server port =
      let host = strip (text_or server.host (text_or server.hostname server.name)) in
      text "http://"
      ++ (if is_ipv6 host then text "[" ++ (host ++ text "]") else host)
      ++ (text ":" ++ (decimal port ++ text "/v1"))
