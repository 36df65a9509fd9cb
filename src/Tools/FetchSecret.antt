-- ===== src/Tools/FetchSecret.antt =====
-- internal/tools/rendezvous/tool_secret_handoff.go: fetchSecretHandler.
pub mod Alarm
use mcp_symposium.Prelude.{ℕ, String, Option, none, some, List, [], ◌∷◌}
use mcp_symposium.Models.{Actor, SecretHandoff}
use mcp_symposium.Engine.{
  Env, Error, secret_already_fetched, secret_foreign_fetch, secret_needs_approval, no_actor,
  foreign_secret, burned_secret, unapproved_secret, Result, ok, err, Tx, pure, attempt, ◌>>=◌, ◌>>◌,
  now, new_uuid,
}
use mcp_symposium.Storage.Handoff.{
  FetchReply, released, refused, fetch_secret_handoff, sweep_expired_secrets,
}
use mcp_symposium.Storage.Alerts.{create_handoff_alert}

-- The envelope, or an error with the actors that the hub is told to wake.
pub data FetchAnswer : Type 0 where
  envelope : String → String → FetchAnswer
  denied : Error → List String → FetchAnswer

module _ (env : Env) where
  -- the alert's row for the sender, whose failure is only logged, and the nudge
  pub alarm : String → String → String → Option SecretHandoff → Tx (List String)
  alarm secret_id kind actor_id none = pure []
  alarm secret_id kind actor_id (some h) = do
    id ← new_uuid env
    attempt (create_handoff_alert env id h.from_actor_id secret_id kind actor_id)
    pure (h.from_actor_id ∷ [])

  -- the switch on the error
  pub answer : String → String → Result FetchReply → Tx FetchAnswer
  unfolding alarm
  answer secret_id actor_id (ok (released h e)) = pure (envelope secret_id e)
  answer secret_id actor_id (ok (refused h secret_foreign_fetch)) = do
    woken ← alarm secret_id "foreign_fetch" actor_id h
    pure (denied foreign_secret woken)
  answer secret_id actor_id (ok (refused h secret_already_fetched)) = do
    woken ← alarm secret_id "double_fetch" actor_id h
    pure (denied burned_secret woken)
  answer secret_id actor_id (ok (refused h secret_needs_approval)) =
      pure (denied unapproved_secret [])
  answer secret_id actor_id (ok (refused h e)) = pure (denied e [])
  answer secret_id actor_id (err e) = pure (denied e [])

  -- fetchSecretHandler
  unfoldable pub fetch_secret_handler : Option Actor → String → Tx FetchAnswer
  unfolding answer
  fetch_secret_handler none secret_id = pure (denied no_actor [])
  fetch_secret_handler (some actor) secret_id = do
    swept_at ← now env
    attempt (sweep_expired_secrets env swept_at)
    fetched_at ← now env
    reply ← attempt (fetch_secret_handoff env secret_id actor.id fetched_at)
    answer secret_id actor.id reply
