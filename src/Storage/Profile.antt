-- ===== src/Storage/Profile.antt =====
-- internal/storage/profile_repo.go: the profile by which others mention an actor.
pub mod Nickname
pub mod Lock
use Prim.Native.Char.{code}
use Prim.Native.String
use mcp_symposium.Prelude.{
  ℕ, String, Bool, true, not, ◌&&◌, Option, none, some, List, [], ◌∷◌, ◌==◌, ◌/=◌, nat_eq,
  trim_space, if◌then◌else◌,
}
use mcp_symposium.Models.{Actor, ActorProfile, Tag, ActorTag, KeyBundleRecord}
use mcp_symposium.Engine.{
  Env, not_found, empty_name, empty_nickname, invalid_nickname, nickname_taken, nickname_locked,
  Result, ok, err, Tx, pure, fail, attempt, ◌>>=◌, ◌>>◌, transaction, now, new_uuid,
}
use mcp_symposium.Engine.Tables.{create_or_ignore, first_where, count_where, delete_where, upsert}
use mcp_symposium.Storage.Schema.{profiles, tags, actor_tags, bundles}
use mcp_symposium.Storage.Mention.Scan.{is_handle}

-- nicknamePattern, on a text that is not empty
abbrev pub is_nickname : String → Bool
is_nickname String.[] = true
is_nickname (String.◌∷◌ c s) = is_handle (code c) && is_nickname s

-- held by another actor
abbrev pub is_rival : String → String → ActorProfile → Bool
is_rival actor_id nickname p = p.nickname == nickname && p.actor_id /= actor_id

module _ (env : Env) where
  pub not_taken : Result ActorProfile → Tx Unit
  not_taken (ok p) = fail nickname_taken
  not_taken (err not_found) = pure tt
  not_taken (err e) = fail e

  -- the lock while a key bundle names the actor; a failure to read the own profile is passed over
  pub not_locked : String → String → Result ActorProfile → Tx Unit
  not_locked actor_id nickname (err e) = pure tt
  not_locked actor_id nickname (ok own) =
      if own.nickname /= nickname
      then (do
        n ← count_where env bundles (λ b. b.actor_id == actor_id)
        if nat_eq n 0 then pure tt else fail nickname_locked)
      else pure tt

  -- one round of the loop in attachActorTags
  pub attach_actor_tag : String → String → Tx Unit
  attach_actor_tag actor_id name = if name == "" then pure tt else (do
    id ← new_uuid env
    create_or_ignore env tags (record { id = id; name = name })
    tag ← first_where env tags (λ t. t.name == name)
    create_or_ignore env actor_tags (record { actor_id = actor_id; tag_id = tag.id })
    pure tt)

  pub attach_actor_tags : String → List String → Tx Unit
  unfolding attach_actor_tag
  attach_actor_tags actor_id [] = pure tt
  attach_actor_tags actor_id (name ∷ names) = do
    attach_actor_tag actor_id (trim_space name)
    attach_actor_tags actor_id names

  -- the body of the transaction in UpsertActorProfile
  pub write_profile : String → String → String → String → List String → Tx ActorProfile
  unfolding not_taken not_locked attach_actor_tags
  write_profile actor_id name nickname bio tag_names = do
    existing ← attempt (first_where env profiles (is_rival actor_id nickname))
    not_taken existing
    own ← attempt (first_where env profiles (λ p. p.actor_id == actor_id))
    not_locked actor_id nickname own
    at ← now env
    let profile : ActorProfile = record {
      actor_id = actor_id;
      name = name;
      nickname = nickname;
      bio = bio;
      updated_at = at;
    }
    upsert env profiles (λ a b. a.actor_id == b.actor_id)
        (λ p. record p { name = name; nickname = nickname; bio = bio; updated_at = at }) profile
    delete_where env actor_tags (λ t. t.actor_id == actor_id)
    attach_actor_tags actor_id tag_names
    pure profile

  -- UpsertActorProfile
  unfoldable pub upsert_actor_profile :
      String → String → String → String → List String → Tx ActorProfile
  unfolding write_profile
  upsert_actor_profile actor_id name nickname bio tag_names =
      if trim_space name == ""
      then fail empty_name
      else if trim_space nickname == ""
      then fail empty_nickname
      else if not (is_nickname (trim_space nickname))
      then fail invalid_nickname
      else transaction env
          (write_profile actor_id (trim_space name) (trim_space nickname) bio tag_names)
