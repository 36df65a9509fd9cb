-- ===== src/Tests/Agents.antt =====
-- An agent with one token, on boards with a driver that works and with one that is down.
use mcp_symposium.Prelude.{ℕ, false, ◌≡◌, refl, none, some, [], ◌∷◌, ◌==◌}
use mcp_symposium.Models.{Actor, agent, AgentCredential}
use mcp_symposium.Engine.{World, ok, ◌>>◌}
use mcp_symposium.Engine.Ensures.{Outcome}
use mcp_symposium.Storage.Agents.{Secrets, authenticate, issue, revoke_all_agent_credentials}
use mcp_symposium.Storage.Agents.Access.{authenticate-revoke_all}
use mcp_symposium.Storage.Agents.Fresh.{issue-authenticate}
use mcp_symposium.Tests.World.{calm, calm-Works, empty, start}

-- a hash that hides nothing, and tokens that are all alike
abbrev plain : Secrets
plain = record { hash = λ s. s; draw = λ n. some "0001" }

abbrev alice : Actor
alice = record {
  id = "a1";
  display_name = "alice";
  kind = agent;
  created_at = 1;
  tool_allowlist = "";
}

abbrev token : AgentCredential
token = record {
  id = "c1";
  actor_id = "a1";
  token_hash = "arp_1";
  label = "";
  created_at = 1;
  revoked_at = none;
  last_used_at = none;
}

abbrev staff : World
staff = start (record empty { actors = alice ∷ []; credentials = token ∷ [] })

authenticate-revoke_all_example :
    Outcome
      (λ a d. (a.id == "a1") ≡ false)
      ((revoke_all_agent_credentials calm "a1" >> authenticate calm plain "arp_1") staff)
authenticate-revoke_all_example = authenticate-revoke_all calm plain "a1" "arp_1" staff

issue-authenticate_example :
    Outcome
      (λ raw d. (s : ℕ) → (authenticate calm plain raw (record { db = d; step = s })).0 ≡ ok alice)
      (issue calm plain "a1" staff)
issue-authenticate_example = issue-authenticate calm plain "a1" alice calm-Works staff refl
