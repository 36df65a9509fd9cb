-- ===== src/Storage/Alerts.antt =====
-- internal/storage/secret_handoff.go, from FindActorByName on: key bundles, and the alerts that tell
-- a sender of attempts on a handoff.
pub mod Delivery
use mcp_symposium.Prelude.{
  ℕ, String, Bool, ◌&&◌, Option, none, some, List, [], ◌∷◌, ◌==◌, nat_eq, is_none, if◌then◌else◌,
}
use mcp_symposium.Models.{Actor, KeyBundleRecord, HandoffAlert}
use mcp_symposium.Engine.{
  Env, not_found, no_such_name, secret_not_found, Result, ok, err, Tx, pure, fail, attempt, ◌>>=◌,
  ◌>>◌, transaction, now,
}
use mcp_symposium.Engine.Tables.{create, find_where, first_where, update_where, upsert}
use mcp_symposium.Storage.Schema.{bundles, alerts}
use mcp_symposium.Storage.Mention.{resolve_mention_target}
use mcp_symposium.Storage.CatchUp.{is_unseen}

abbrev pub named : Option Actor → Tx Actor
named none = fail no_such_name
named (some actor) = pure actor

-- a bundle that is not there is ErrSecretNotFound
unfoldable pub or_no_bundle : Result KeyBundleRecord → Tx KeyBundleRecord
or_no_bundle (ok r) = pure r
or_no_bundle (err not_found) = fail secret_not_found
or_no_bundle (err e) = fail e

module _ (env : Env) where
  -- FindActorByName
  unfoldable pub find_actor_by_name : String → Tx Actor
  find_actor_by_name name = do target ← resolve_mention_target env name; named target

  -- UpsertKeyBundle: gorm's Save updates the row of the primary key, and inserts it if there is none
  unfoldable pub upsert_key_bundle : String → String → Tx Unit
  upsert_key_bundle actor_id bundle_json = do
    at ← now env
    let rec : KeyBundleRecord = record {
      actor_id = actor_id;
      bundle_json = bundle_json;
      updated_at = at;
    }
    n ← update_where env bundles (λ r. r.actor_id == actor_id) (λ r. rec)
    if nat_eq n 0
        then upsert env bundles (λ a b. a.actor_id == b.actor_id) (λ r. rec) rec
        else pure tt

  -- GetKeyBundle
  unfoldable pub get_key_bundle : String → Tx KeyBundleRecord
  unfolding or_no_bundle
  get_key_bundle actor_id = do
    found ← attempt (first_where env bundles (λ r. r.actor_id == actor_id))
    or_no_bundle found

  -- CreateHandoffAlert
  unfoldable pub create_handoff_alert : String → String → String → String → String → Tx Unit
  create_handoff_alert id actor_id secret_id kind by_actor_id = do
    at ← now env
    create env alerts (record {
      id = id;
      actor_id = actor_id;
      secret_id = secret_id;
      kind = kind;
      by_actor_id = by_actor_id;
      created_at = at;
      seen_at = none;
    })

  -- mark what was found, if anything was
  pub mark_alerts : String → List HandoffAlert → Tx Unit
  mark_alerts actor_id [] = pure tt
  mark_alerts actor_id (a ∷ rest) = do
    at ← now env
    update_where env alerts (is_unseen actor_id) (λ b. record b { seen_at = some at })
    pure tt

  -- the body of the transaction in UnseenHandoffAlerts
  pub take_alerts : String → Tx (List HandoffAlert)
  unfolding mark_alerts
  take_alerts actor_id = do
    found ← find_where env alerts (is_unseen actor_id)
    mark_alerts actor_id (env.sort_asc (λ a. a.created_at) found)
    pure (env.sort_asc (λ a. a.created_at) found)

  -- UnseenHandoffAlerts
  unfoldable pub unseen_handoff_alerts : String → Tx (List HandoffAlert)
  unfolding take_alerts
  unseen_handoff_alerts actor_id = transaction env (take_alerts actor_id)
