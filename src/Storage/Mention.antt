-- ===== src/Storage/Mention.antt =====
-- internal/storage/thread_repo.go: @mentions. The scan of a body for handles is in `Scan`; here a
-- handle is resolved to an actor, and the actors found get one row each.
pub mod Scan
pub mod Frame
pub mod Once
use mcp_symposium.Prelude.{
  String, Bool, ◌||◌, Option, none, some, List, [], ◌∷◌, ◌++◌, ◌==◌, if◌then◌else◌, any,
}
use mcp_symposium.Models.{Actor, ActorProfile, Mention, MentionReport}
use mcp_symposium.Engine.{
  Env, not_found, Result, ok, err, Tx, pure, fail, attempt, ◌>>=◌, ◌>>◌, now, new_uuid,
}
use mcp_symposium.Engine.Tables.{create, first_where, find_where}
use mcp_symposium.Storage.Schema.{actors, profiles, mentions}
use Scan.{strip_code_regions, mention_names}

-- A case-folded lookup: nobody, several, or the one.
pub data Folded : Type 0 where
  no_match ambiguous : Folded
  matched : Actor → Folded

-- What the loop over the handles carries.
pub record Seen : Type 0 where
  pub names : List String
  pub actors : List String
  pub report : MentionReport

abbrev pub contains : String → List String → Bool
contains s l = any (λ t. t == s) l

-- for these lookups gorm.ErrRecordNotFound is no error
unfoldable pub or_nobody : {A : Type 0} → Result A → Tx (Option A)
or_nobody (ok a) = pure (some a)
or_nobody (err not_found) = pure none
or_nobody (err e) = fail e

module _ (env : Env) where
  nickname_owner : Option ActorProfile → Tx (Option Actor)
  nickname_owner none = pure none
  nickname_owner (some profile) = do
    actor ← first_where env actors (λ a. a.id == profile.actor_id)
    pure (some actor)

  pub actor_by_exact_nickname : String → Tx (Option Actor)
  unfolding nickname_owner
  actor_by_exact_nickname name = do
    row ← attempt (first_where env profiles (λ p. p.nickname == name))
    profile ← or_nobody row
    nickname_owner profile

  pub actor_by_exact_display_name : String → Tx (Option Actor)
  actor_by_exact_display_name name = do
    row ← attempt (first_where env actors (λ a. a.display_name == name))
    or_nobody row

  folded_owner : List ActorProfile → Tx Folded
  folded_owner [] = pure no_match
  folded_owner (profile ∷ []) = do
    actor ← first_where env actors (λ a. a.id == profile.actor_id)
    pure (matched actor)
  folded_owner (_ ∷ _ ∷ _) = pure ambiguous

  pub actor_by_folded_nickname : String → Tx Folded
  unfolding folded_owner
  actor_by_folded_nickname name = do
    found ← find_where env profiles (λ p. env.lower p.nickname == env.lower name)
    folded_owner found

  abbrev pub folded_actor : List Actor → Folded
  folded_actor [] = no_match
  folded_actor (actor ∷ []) = matched actor
  folded_actor (_ ∷ _ ∷ _) = ambiguous

  pub actor_by_folded_display_name : String → Tx Folded
  actor_by_folded_display_name name = do
    found ← find_where env actors (λ a. env.lower a.display_name == env.lower name)
    pure (folded_actor found)

  abbrev pub accept : Folded → Option Actor
  accept no_match = none
  accept ambiguous = none
  accept (matched actor) = some actor

  folded_display : String → Folded → Tx (Option Actor)
  folded_display name (matched actor) = pure (some actor)
  folded_display name ambiguous = pure none
  folded_display name no_match = do found ← actor_by_folded_display_name name; pure (accept found)

  folded : String → Option Actor → Tx (Option Actor)
  unfolding folded_display
  folded name (some actor) = pure (some actor)
  folded name none = do found ← actor_by_folded_nickname name; folded_display name found

  by_display : String → Option Actor → Tx (Option Actor)
  by_display name (some actor) = pure (some actor)
  by_display name none = actor_by_exact_display_name name

  -- resolveMentionTarget: nickname before display name, exact before folded, nobody if ambiguous
  unfoldable pub resolve_mention_target : String → Tx (Option Actor)
  unfolding by_display folded actor_by_exact_nickname actor_by_exact_display_name
      actor_by_folded_nickname actor_by_folded_display_name or_nobody
  resolve_mention_target name = do
    nick ← actor_by_exact_nickname name
    exact ← by_display name nick
    folded name exact

  -- a handle that names an actor: one row per actor and post, and none for the author
  notify : Option String → Option String → String → Seen → Actor → Tx Seen
  notify reply_id thread_id author_id seen actor =
      if actor.id == author_id || contains actor.id seen.actors then pure seen else (do
        id ← new_uuid env
        at ← now env
        create env mentions (record {
          id = id;
          reply_id = reply_id;
          thread_id = thread_id;
          mentioned_actor_id = actor.id;
          created_at = at;
          seen_at = none;
        })
        pure (record seen { actors = actor.id ∷ seen.actors }))

  abbrev pub add_resolved : String → Seen → Seen
  add_resolved name seen = record seen {
    report = record seen.report { resolved = seen.report.resolved ++ name ∷ [] };
  }

  abbrev pub add_unresolved : String → Seen → Seen
  add_unresolved name seen = record seen {
    report = record seen.report { unresolved = seen.report.unresolved ++ name ∷ [] };
  }

  settle_name : Option String → Option String → String → String → Seen → Option Actor → Tx Seen
  unfolding notify
  settle_name reply_id thread_id author_id name seen none = pure (add_unresolved name seen)
  settle_name reply_id thread_id author_id name seen (some actor) =
      notify reply_id thread_id author_id (add_resolved name seen) actor

  -- one round of the loop in createMentions
  mention_one : Option String → Option String → String → String → Seen → Tx Seen
  unfolding settle_name
  mention_one reply_id thread_id author_id name seen =
      if contains name seen.names then pure seen else (do
        target ← resolve_mention_target name
        settle_name reply_id thread_id author_id name (record seen { names = name ∷ seen.names })
            target)

  mention_each : Option String → Option String → String → List String → Seen → Tx Seen
  unfolding mention_one
  mention_each reply_id thread_id author_id [] seen = pure seen
  mention_each reply_id thread_id author_id (name ∷ names) seen = do
    seen' ← mention_one reply_id thread_id author_id name seen
    mention_each reply_id thread_id author_id names seen'

  abbrev pub nothing_seen : Seen
  nothing_seen = record {
    names = [];
    actors = [];
    report = record { resolved = []; unresolved = [] };
  }

  -- createMentions
  unfoldable pub create_mentions :
      Option String → Option String → String → String → Tx MentionReport
  unfolding mention_each
  create_mentions reply_id thread_id author_id body = do
    seen ←
        mention_each reply_id thread_id author_id (mention_names (strip_code_regions body))
          nothing_seen
    pure seen.report
