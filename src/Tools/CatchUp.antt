-- ===== src/Tools/CatchUp.antt =====
-- internal/tools/rendezvous/tool_catch_up.go.
use mcp_symposium.Prelude.{ℕ, String, [], true, ◌≡◌, refl, Option, none, some, List}
use mcp_symposium.Models.{Actor, Reply, Mention, HandoffAlert}
use mcp_symposium.Engine.{Env, World, driver, no_actor, ok, err, Tx, pure, fail, ◌>>=◌, transaction}
use mcp_symposium.Storage.CatchUp.{CatchUpResult, catch_up}
use mcp_symposium.Engine.Order.{Sorts}
use mcp_symposium.Engine.Transactions.{Works}
use mcp_symposium.Storage.CatchUp.Twice.{IsQuiet, fresh_result}
use mcp_symposium.Storage.CatchUp.Succeeds.{catch_up-succeeds, catch_up-quiet}
use mcp_symposium.Storage.Alerts.{unseen_handoff_alerts}

pub record CatchUpOutput : Type 0 where
  pub actor_id : String
  pub unread_replies : List Reply
  pub new_mentions : List Mention
  pub handoff_alerts : List HandoffAlert

module _ (env : Env) where
  -- catchUpHandler: two transactions, one after the other
  unfoldable pub catch_up_handler : Option Actor → Tx CatchUpOutput
  catch_up_handler none = fail no_actor
  catch_up_handler (some actor) = do
    result ← catch_up env actor.id
    alerts ← unseen_handoff_alerts env actor.id
    pure (record {
      actor_id = actor.id;
      unread_replies = result.unread_replies;
      new_mentions = result.new_mentions;
      handoff_alerts = alerts;
    })

-- Let the driver refuse what it will. If CatchUp succeeds and the transaction of the alerts behind it
-- is refused, then the tool returns an error; CatchUp had found just what was new, unread replies and
-- unseen mentions; in the tables that the tool leaves no reply is unread in a thread that the actor
-- watches and no mention of the actor is unseen; and a later CatchUp under a driver that works, with
-- nothing new in between, returns nothing: when ORDER BY rearranges the rows, ascending, in both.
pub catch_up_handler_lost :
    (env : Env) (sorts : Sorts env) (actor : Actor) (w : World) (r : CatchUpResult)
    → (catch_up env actor.id w).0 ≡ ok r
    → env.fails (catch_up env actor.id w).1.step ≡ true
    → let lost = catch_up_handler env (some actor) w in
      (lost.0 ≡ err driver)
      × (r ≡ fresh_result env actor.id w.db)
      × IsQuiet actor.id lost.1.db
      × ((later : Env)
          → Works later
          → Sorts later
          → (step : ℕ)
          → (catch_up later actor.id (record { db = lost.1.db; step = step })).0
            ≡ ok (record { unread_replies = []; new_mentions = [] }))
unfolding catch_up_handler ◌>>=◌ unseen_handoff_alerts transaction
catch_up_handler_lost env sorts actor w r done down =
    let (found, quiet) = catch_up-succeeds env sorts actor.id w r done in
    rw (done, down)
      (
        refl,
        found,
        quiet,
        λ later works sorts' step.
            catch_up-quiet later works sorts' actor.id
              (record { db = (catch_up env actor.id w).1.db; step = step }) quiet,
      )
