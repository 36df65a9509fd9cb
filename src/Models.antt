-- ===== src/Models.antt =====
-- internal/storage/models.go and the tables of secret_handoff.go: the rows of the tables. A time is
-- its distance from Go's zero time, so the zero time is 0; a pointer that may be nil is an option.
use mcp_symposium.Prelude.{ℕ, String, Option, List}

pub data ActorKind : Type 0 where
  agent human : ActorKind

pub record Actor : Type 0 where
  pub id : String
  pub display_name : String
  pub kind : ActorKind
  pub created_at : ℕ
  pub tool_allowlist : String

pub record AgentCredential : Type 0 where
  pub id : String
  pub actor_id : String
  pub token_hash : String
  pub label : String
  pub created_at : ℕ
  pub revoked_at : Option ℕ
  pub last_used_at : Option ℕ

pub record MentionReport : Type 0 where
  pub resolved : List String
  pub unresolved : List String

-- The field MentionReport is no column: CreateThread returns it beside the row.
pub record Thread : Type 0 where
  pub id : String
  pub title : String
  pub body : String
  pub external_id : Option String
  pub status : String
  pub author_id : String
  pub created_at : ℕ
  pub updated_at : ℕ

pub record Reply : Type 0 where
  pub id : String
  pub thread_id : String
  pub body : String
  pub author_id : String
  pub created_at : ℕ

pub record Watcher : Type 0 where
  pub thread_id : String
  pub actor_id : String

pub record ThreadWatch : Type 0 where
  pub actor_id : String
  pub thread_id : String
  pub last_read_at : ℕ
  pub updated_at : ℕ

pub record Mention : Type 0 where
  pub id : String
  pub reply_id : Option String
  pub thread_id : Option String
  pub mentioned_actor_id : String
  pub created_at : ℕ
  pub seen_at : Option ℕ

pub record Tag : Type 0 where
  pub id : String
  pub name : String

pub record ThreadTag : Type 0 where
  pub thread_id : String
  pub tag_id : String

pub record UserIdentity : Type 0 where
  pub actor_id : String
  pub keycloak_subject : String
  pub role : String

pub record ActorProfile : Type 0 where
  pub actor_id : String
  pub name : String
  pub nickname : String
  pub bio : String
  pub updated_at : ℕ

pub record ActorTag : Type 0 where
  pub actor_id : String
  pub tag_id : String

pub record KeyBundleRecord : Type 0 where
  pub actor_id : String
  pub bundle_json : String
  pub updated_at : ℕ

pub record SecretHandoff : Type 0 where
  pub id : String
  pub from_actor_id : String
  pub to_actor_id : String
  pub label : String
  pub class : String
  pub envelope_json : String
  pub created_at : ℕ
  pub expires_at : ℕ
  pub fetched_at : Option ℕ
  pub fetched_by_actor : String
  pub foreign_attempts : ℕ
  pub approved_at : Option ℕ
  pub approved_by : String

pub record HandoffAlert : Type 0 where
  pub id : String
  pub actor_id : String
  pub secret_id : String
  pub kind : String
  pub by_actor_id : String
  pub created_at : ℕ
  pub seen_at : Option ℕ

-- The database: the rows of each table.
pub record Db : Type 0 where
  pub actors : List Actor
  pub credentials : List AgentCredential
  pub threads : List Thread
  pub replies : List Reply
  pub watchers : List Watcher
  pub thread_watches : List ThreadWatch
  pub mentions : List Mention
  pub tags : List Tag
  pub thread_tags : List ThreadTag
  pub identities : List UserIdentity
  pub profiles : List ActorProfile
  pub actor_tags : List ActorTag
  pub bundles : List KeyBundleRecord
  pub handoffs : List SecretHandoff
  pub alerts : List HandoffAlert
