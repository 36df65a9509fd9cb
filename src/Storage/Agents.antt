-- ===== src/Storage/Agents.antt =====
-- internal/storage/actor_repo.go and internal/auth/auth.go: agents, their bearer tokens, and the
-- check of a request's token. The hash of a token and the drawing of a new one are parameters.
pub mod Access
pub mod Fresh
use Prim.Native.Char.{code}
use Prim.Native.String
use mcp_symposium.Prelude.{
  nat_eq, ℕ, String, Bool, ◌&&◌, Option, none, some, ◌==◌, is_none, trim_space, if◌then◌else◌,
}
use mcp_symposium.Models.{Actor, agent, AgentCredential}
use mcp_symposium.Engine.{
  Env, Error, not_found, invalid_token, empty_display_name, no_entropy, Result, ok, err, World,
  tick, Tx, pure, fail, attempt, ◌>>=◌, ◌>>◌, now, new_uuid,
}
use mcp_symposium.Engine.Tables.{create, first_where, update_where}
use mcp_symposium.Storage.Schema.{actors, credentials}

-- What is not in the repository: sha256 in hexadecimal, and the random bytes in base64, which the
-- source of randomness may refuse.
pub record Secrets : Type 0 where
  pub hash : String → String
  pub draw : ℕ → Option String

-- What RequireBearer answers, or the actor for whom it goes on.
pub data Admission : Type 0 where
  missing_token revoked_token unavailable : Admission
  admitted : Actor → Admission

-- strings.CutPrefix
abbrev pub cut_prefix : String → String → Option String
cut_prefix String.[] s = some s
cut_prefix (String.◌∷◌ c p) String.[] = none
cut_prefix (String.◌∷◌ c p) (String.◌∷◌ d s) =
    let rest = cut_prefix p s in if nat_eq (code c) (code d) then rest else none

-- WHERE token_hash = ? AND revoked_at IS NULL
abbrev pub is_live : String → AgentCredential → Bool
is_live hashed c = c.token_hash == hashed && is_none c.revoked_at

-- a credential that is not there is an invalid token; another error stays what it is
unfoldable pub or_invalid : Result AgentCredential → Tx AgentCredential
or_invalid (ok c) = pure c
or_invalid (err not_found) = fail invalid_token
or_invalid (err e) = fail e

abbrev pub revoked : ℕ → AgentCredential → AgentCredential
revoked at c = record c { revoked_at = some at }

module _ (env : Env) where
  -- CreateAgent
  unfoldable pub create_agent : String → Tx Actor
  create_agent display_name = if trim_space display_name == "" then fail empty_display_name else (do
    id ← new_uuid env
    at ← now env
    let actor : Actor = record {
      id = id;
      display_name = display_name;
      kind = agent;
      created_at = at;
      tool_allowlist = "";
    }
    create env actors actor
    pure actor)

  -- RevokeAgentToken
  unfoldable pub revoke_agent_token : String → Tx Unit
  revoke_agent_token credential_id = do
    at ← now env
    update_where env credentials (λ c. c.id == credential_id && is_none c.revoked_at) (revoked at)
    pure tt

  -- RevokeAllAgentCredentials
  unfoldable pub revoke_all_agent_credentials : String → Tx Unit
  revoke_all_agent_credentials actor_id = do
    at ← now env
    update_where env credentials (λ c. c.actor_id == actor_id && is_none c.revoked_at) (revoked at)
    pure tt

module _ (env : Env) (secrets : Secrets) where
  -- Authenticate: a failure to note the time of use is no error
  unfoldable pub authenticate : String → Tx Actor
  unfolding or_invalid
  authenticate raw = do
    found ← attempt (first_where env credentials (is_live (secrets.hash raw)))
    cred ← or_invalid found
    at ← now env
    attempt (
        update_where env credentials (λ c. c.id == cred.id)
          (λ c. record c { last_used_at = some at }))
    first_where env actors (λ a. a.id == cred.actor_id)

  -- rand.Read and the encoding of what it read
  unfoldable pub draw_token : Tx String
  draw_token w = elim (secrets.draw w.step) [
    | none ↦ (err no_entropy, tick w)
    | some s ↦ (ok (String.◌++◌ "arp_" s), tick w)
  ]

  -- Issue
  unfoldable pub issue : String → Tx String
  unfolding draw_token
  issue actor_id = do
    raw ← draw_token
    id ← new_uuid env
    at ← now env
    create env credentials (record {
      id = id;
      actor_id = actor_id;
      token_hash = secrets.hash raw;
      label = "";
      created_at = at;
      revoked_at = none;
      last_used_at = none;
    })
    pure raw

  abbrev pub admission : Result Actor → Admission
  admission (ok actor) = admitted actor
  admission (err invalid_token) = revoked_token
  admission (err e) = unavailable

  -- RequireBearer: the token of the header, the actor, and 401 or 503 if there is none
  abbrev pub admit : Option String → Tx Admission
  admit none = pure missing_token
  admit (some token) =
      if token == ""
      then pure missing_token
      else (do found ← attempt (authenticate token); pure (admission found))

  unfoldable pub require_bearer : String → Tx Admission
  require_bearer header = admit (cut_prefix "Bearer " header)
