-- ===== src/Storage/Schema.antt =====
-- internal/storage/models.go: the tables with their primary keys and unique indexes.
use mcp_symposium.Prelude.{String, Bool, false, ◌&&◌, ◌||◌, Option, some, ◌==◌}
use mcp_symposium.Models.{
  Actor, AgentCredential, Thread, Reply, Watcher, ThreadWatch, Mention, Tag, ThreadTag,
  UserIdentity, ActorProfile, ActorTag, KeyBundleRecord, SecretHandoff, HandoffAlert,
}
use mcp_symposium.Engine.Tables.{Table}

abbrev pub actors : Table Actor
actors = record {
  rows = λ d. d.actors;
  put = λ l d. record d { actors = l };
  clash = λ a b. a.id == b.id || a.display_name == b.display_name;
}

abbrev pub credentials : Table AgentCredential
credentials = record {
  rows = λ d. d.credentials;
  put = λ l d. record d { credentials = l };
  clash = λ a b. a.id == b.id || a.token_hash == b.token_hash;
}

-- Two texts that are both there and equal: NULL never equals NULL in a unique index.
abbrev pub same_external_id : Option String → Option String → Bool
same_external_id (some a) (some b) = a == b
same_external_id _ _ = false

abbrev pub threads : Table Thread
threads = record {
  rows = λ d. d.threads;
  put = λ l d. record d { threads = l };
  clash = λ a b. a.id == b.id || same_external_id a.external_id b.external_id;
}

abbrev pub replies : Table Reply
replies = record {
  rows = λ d. d.replies;
  put = λ l d. record d { replies = l };
  clash = λ a b. a.id == b.id;
}

abbrev pub watchers : Table Watcher
watchers = record {
  rows = λ d. d.watchers;
  put = λ l d. record d { watchers = l };
  clash = λ a b. a.thread_id == b.thread_id && a.actor_id == b.actor_id;
}

abbrev pub thread_watches : Table ThreadWatch
thread_watches = record {
  rows = λ d. d.thread_watches;
  put = λ l d. record d { thread_watches = l };
  clash = λ a b. a.actor_id == b.actor_id && a.thread_id == b.thread_id;
}

abbrev pub mentions : Table Mention
mentions = record {
  rows = λ d. d.mentions;
  put = λ l d. record d { mentions = l };
  clash = λ a b. a.id == b.id;
}

abbrev pub tags : Table Tag
tags = record {
  rows = λ d. d.tags;
  put = λ l d. record d { tags = l };
  clash = λ a b. a.id == b.id || a.name == b.name;
}

abbrev pub thread_tags : Table ThreadTag
thread_tags = record {
  rows = λ d. d.thread_tags;
  put = λ l d. record d { thread_tags = l };
  clash = λ a b. a.thread_id == b.thread_id && a.tag_id == b.tag_id;
}

abbrev pub identities : Table UserIdentity
identities = record {
  rows = λ d. d.identities;
  put = λ l d. record d { identities = l };
  clash = λ a b. a.actor_id == b.actor_id || a.keycloak_subject == b.keycloak_subject;
}

abbrev pub profiles : Table ActorProfile
profiles = record {
  rows = λ d. d.profiles;
  put = λ l d. record d { profiles = l };
  clash = λ a b. a.actor_id == b.actor_id || a.nickname == b.nickname;
}

abbrev pub actor_tags : Table ActorTag
actor_tags = record {
  rows = λ d. d.actor_tags;
  put = λ l d. record d { actor_tags = l };
  clash = λ a b. a.actor_id == b.actor_id && a.tag_id == b.tag_id;
}

abbrev pub bundles : Table KeyBundleRecord
bundles = record {
  rows = λ d. d.bundles;
  put = λ l d. record d { bundles = l };
  clash = λ a b. a.actor_id == b.actor_id;
}

abbrev pub handoffs : Table SecretHandoff
handoffs = record {
  rows = λ d. d.handoffs;
  put = λ l d. record d { handoffs = l };
  clash = λ a b. a.id == b.id;
}

abbrev pub alerts : Table HandoffAlert
alerts = record {
  rows = λ d. d.alerts;
  put = λ l d. record d { alerts = l };
  clash = λ a b. a.id == b.id;
}
