-- ===== src/Storage/Mention/Frame.antt =====
-- createMentions writes to no table but that of the mentions.
use mcp_symposium.Prelude.{String, Option, none, some, List, [], ◌∷◌}
use mcp_symposium.Models.{Actor, ActorProfile, Mention, Db}
use mcp_symposium.Engine.{Env, Result, not_found, ok, err}
use mcp_symposium.Engine.Keeps.{Keeps, keeps_rules, Keeps-bind, Keeps-create}
use mcp_symposium.Engine.Tables.{create}
use mcp_symposium.Storage.Schema.{mentions}
use mcp_symposium.Storage.Mention.{
  Folded, no_match, ambiguous, matched, Seen, or_nobody, nickname_owner, actor_by_exact_nickname,
  actor_by_exact_display_name, folded_owner, actor_by_folded_nickname, actor_by_folded_display_name,
  folded_display, folded, by_display, resolve_mention_target, notify, settle_name, mention_one,
  mention_each, create_mentions,
}

module _ {P : Db → Type 0} where
  or_nobody-Keeps : {A : Type 0} (r : Result A) → Keeps P (or_nobody r)
  unfolding or_nobody
  or_nobody-Keeps (ok a) = search keeps_rules
  or_nobody-Keeps (err not_found) = search keeps_rules
  or_nobody-Keeps (err e) = search keeps_rules

  module _ (env : Env) where
    nickname_owner-Keeps : (o : Option ActorProfile) → Keeps P (nickname_owner env o)
    unfolding nickname_owner
    nickname_owner-Keeps none = search keeps_rules
    nickname_owner-Keeps (some p) = search keeps_rules

    exact_nickname-Keeps : (name : String) → Keeps P (actor_by_exact_nickname env name)
    unfolding actor_by_exact_nickname
    exact_nickname-Keeps name = search (keeps_rules, or_nobody-Keeps, nickname_owner-Keeps) depth 7

    exact_display-Keeps : (name : String) → Keeps P (actor_by_exact_display_name env name)
    unfolding actor_by_exact_display_name
    exact_display-Keeps name = search (keeps_rules, or_nobody-Keeps) depth 7

    folded_owner-Keeps : (l : List ActorProfile) → Keeps P (folded_owner env l)
    unfolding folded_owner
    folded_owner-Keeps [] = search keeps_rules
    folded_owner-Keeps (p ∷ []) = search keeps_rules
    folded_owner-Keeps (p ∷ q ∷ l) = search keeps_rules

    folded_nickname-Keeps : (name : String) → Keeps P (actor_by_folded_nickname env name)
    unfolding actor_by_folded_nickname
    folded_nickname-Keeps name = search (keeps_rules, folded_owner-Keeps)

    folded_name-Keeps : (name : String) → Keeps P (actor_by_folded_display_name env name)
    unfolding actor_by_folded_display_name
    folded_name-Keeps name = search keeps_rules

    folded_display-Keeps : (name : String) (f : Folded) → Keeps P (folded_display env name f)
    unfolding folded_display
    folded_display-Keeps name no_match = search (keeps_rules, folded_name-Keeps)
    folded_display-Keeps name ambiguous = search keeps_rules
    folded_display-Keeps name (matched a) = search keeps_rules

    folded-Keeps : (name : String) (o : Option Actor) → Keeps P (folded env name o)
    unfolding folded
    folded-Keeps name none = search (keeps_rules, folded_nickname-Keeps, folded_display-Keeps)
    folded-Keeps name (some a) = search keeps_rules

    by_display-Keeps : (name : String) (o : Option Actor) → Keeps P (by_display env name o)
    unfolding by_display
    by_display-Keeps name none = search (keeps_rules, exact_display-Keeps)
    by_display-Keeps name (some a) = search keeps_rules

    -- Resolving a handle changes no table.
    pub resolve-Keeps : (name : String) → Keeps P (resolve_mention_target env name)
    unfolding resolve_mention_target
    resolve-Keeps name =
        search (keeps_rules, exact_nickname-Keeps, by_display-Keeps, folded-Keeps) depth 7

    -- An invariant that does not look at the mentions is kept.
    module _ (unread : (d : Db) (l : List Mention) → P d → P (record d { mentions = l }))
        (reply_id thread_id : Option String) (author_id : String) where
      insert_mention-Keeps : (m : Mention) → Keeps P (create env mentions m)
      insert_mention-Keeps m = Keeps-create env mentions m (λ d h _. unread d _ h)

      notify-Keeps :
          (seen : Seen) (a : Actor) → Keeps P (notify env reply_id thread_id author_id seen a)
      unfolding notify
      notify-Keeps seen a = search (keeps_rules, insert_mention-Keeps) depth 8

      settle_name-Keeps :
          (name : String) (seen : Seen) (o : Option Actor)
          → Keeps P (settle_name env reply_id thread_id author_id name seen o)
      unfolding settle_name
      settle_name-Keeps name seen none = search keeps_rules
      settle_name-Keeps name seen (some a) = notify-Keeps _ a

      mention_one-Keeps :
          (name : String) (seen : Seen)
          → Keeps P (mention_one env reply_id thread_id author_id name seen)
      unfolding mention_one
      mention_one-Keeps name seen = search (keeps_rules, resolve-Keeps, settle_name-Keeps)

      mention_each-Keeps :
          (names : List String) (seen : Seen)
          → Keeps P (mention_each env reply_id thread_id author_id names seen)
      unfolding mention_each
      mention_each-Keeps [] seen = search keeps_rules
      mention_each-Keeps (n ∷ names) seen =
          Keeps-bind _ _ (mention_one-Keeps n seen) (λ s. mention_each-Keeps names s)

      pub create_mentions-Keeps :
          (body : String) → Keeps P (create_mentions env reply_id thread_id author_id body)
      unfolding create_mentions
      create_mentions-Keeps body = search (keeps_rules, mention_each-Keeps)
