-- ===== src/Storage/Humans.antt =====
-- internal/storage/human_repo.go: the actor of a person who logs in.
pub mod Linked
use mcp_symposium.Prelude.{
  ℕ, String, Bool, true, false, Option, none, some, ◌==◌, ◌/=◌, nat_eq, if◌then◌else◌,
}
use mcp_symposium.Models.{Actor, human, UserIdentity}
use mcp_symposium.Engine.{
  Env, not_found, Result, ok, err, Tx, pure, fail, attempt, ◌>>=◌, ◌>>◌, transaction, now, new_uuid,
}
use mcp_symposium.Engine.Tables.{create, create_or_ignore_on, first_where, update_where}
use mcp_symposium.Storage.Schema.{actors, identities}

module _ (env : Env) where
  -- the role of the login takes effect
  pub refresh_role : String → UserIdentity → Tx Unit
  refresh_role role i =
      if i.role /= role
      then (do
        update_where env identities (λ j. j.actor_id == i.actor_id) (λ j. record j { role = role })
        pure tt)
      else pure tt

  pub known : String → UserIdentity → Tx Actor
  unfolding refresh_role
  known role i = do refresh_role role i; first_where env actors (λ a. a.id == i.actor_id)

  -- the identity was inserted: the actor is, too
  pub add_actor : String → String → ℕ → Tx Bool
  add_actor id display_name n = if nat_eq n 0 then pure false else (do
    at ← now env
    create env actors (record {
      id = id;
      display_name = display_name;
      kind = human;
      created_at = at;
      tool_allowlist = "";
    })
    pure true)

  -- the body of the transaction: whether the identity was inserted
  pub claim_subject : String → String → String → String → Tx Bool
  unfolding add_actor
  claim_subject id subject display_name role = do
    n ←
        create_or_ignore_on env identities (λ a b. a.keycloak_subject == b.keycloak_subject)
          (record { actor_id = id; keycloak_subject = subject; role = role })
    add_actor id display_name n

  -- the actor made, or the one of whoever won the race
  pub settle_race : String → String → Bool → Tx Actor
  settle_race id subject true = first_where env actors (λ a. a.id == id)
  settle_race id subject false = do
    winner ← first_where env identities (λ i. i.keycloak_subject == subject)
    first_where env actors (λ a. a.id == winner.actor_id)

  pub by_identity : String → String → String → Result UserIdentity → Tx Actor
  unfolding known claim_subject settle_race
  by_identity subject display_name role (ok i) = known role i
  by_identity subject display_name role (err not_found) = do
    id ← new_uuid env
    won ← transaction env (claim_subject id subject display_name role)
    settle_race id subject won
  by_identity subject display_name role (err e) = fail e

  -- GetOrCreateHumanActor
  unfoldable pub get_or_create_human_actor : String → String → String → Tx Actor
  unfolding by_identity
  get_or_create_human_actor subject display_name role = do
    found ← attempt (first_where env identities (λ i. i.keycloak_subject == subject))
    by_identity subject display_name role found
