-- ===== src/Tests/Tools.antt =====
-- A handoff that a stranger asks for, its alert, and a catch-up that fails half-way.
use mcp_symposium.Prelude.{ℕ, true, ◌≡◌, refl, none, some, [], ◌∷◌, count}
use mcp_symposium.Models.{Actor, agent, SecretHandoff, HandoffAlert, Mention}
use mcp_symposium.Engine.{Env, World, driver, foreign_secret, ok, err, ◌>>=◌, transaction, now}
use mcp_symposium.Engine.Tables.{find_where, update_where}
use mcp_symposium.Storage.CatchUp.{is_unseen, catch_up, count_unseen_handoff_alerts}
use mcp_symposium.Engine.Order.{Sorts}
use mcp_symposium.Engine.Transactions.{Works}
use mcp_symposium.Storage.CatchUp.Twice.{IsQuiet, fresh_result}
use mcp_symposium.Storage.Handoff.Spec.{HasKeys}
use mcp_symposium.Storage.Alerts.{unseen_handoff_alerts}
use mcp_symposium.Storage.Alerts.Delivery.{unseen_of, unseen_handoff_alerts_lem}
use mcp_symposium.Tools.FetchSecret.{denied, fetch_secret_handler}
use mcp_symposium.Tools.FetchSecret.Alarm.{IsFresh, fetch_secret_handler_foreign}
use mcp_symposium.Tools.CatchUp.{catch_up_handler, catch_up_handler_lost}
use mcp_symposium.Tests.World.{calm, calm-Works, calm-Sorts, refusing, empty, start}

abbrev mallory : Actor
mallory = record {
  id = "m";
  display_name = "mallory";
  kind = agent;
  created_at = 1;
  tool_allowlist = "";
}

abbrev key : SecretHandoff
key = record {
  id = "s1";
  from_actor_id = "alice";
  to_actor_id = "bob";
  label = "key";
  class = "routine";
  envelope_json = "{}";
  created_at = 10;
  expires_at = 500;
  fetched_at = none;
  fetched_by_actor = "";
  foreign_attempts = 0;
  approved_at = none;
  approved_by = "";
}

abbrev alert : HandoffAlert
alert = record {
  id = "x1";
  actor_id = "bob";
  secret_id = "s0";
  kind = "double_fetch";
  by_actor_id = "carol";
  created_at = 5;
  seen_at = none;
}

abbrev vault : World
vault = start (record empty { handoffs = key ∷ [] })

vault-HasKeys : HasKeys vault.db
vault-HasKeys = (tt, tt)

vault-IsFresh : IsFresh calm vault.db
vault-IsFresh n = refl

fetch_secret_handler_foreign_example :
    let r = fetch_secret_handler calm (some mallory) "s1" vault in
    (r.0 ≡ ok (denied foreign_secret ("alice" ∷ [])))
    × (count (is_unseen "alice") r.1.db.alerts ≡ 1)
fetch_secret_handler_foreign_example =
    fetch_secret_handler_foreign calm calm-Works "s1" mallory key vault vault-HasKeys refl refl
      vault-IsFresh

alarmed : World
alarmed = start (record empty { alerts = alert ∷ [] })

unseen_handoff_alerts_lem_example :
    let r = unseen_handoff_alerts calm "bob" alarmed in
    (r.0 ≡ ok (unseen_of calm calm-Works "bob" calm-Sorts alarmed.db))
    × ((count_unseen_handoff_alerts calm "bob" r.1).0 ≡ ok 0)
unseen_handoff_alerts_lem_example =
    unseen_handoff_alerts_lem calm calm-Works "bob" calm-Sorts alarmed

abbrev called : Mention
called = record {
  id = "n1";
  reply_id = none;
  thread_id = some "t1";
  mentioned_actor_id = "m";
  created_at = 3;
  seen_at = none;
}

abbrev news : World
news = start (record empty { mentions = called ∷ [] })

caught :
    (catch_up (refusing 6) "m" news).0
    ≡ ok (record { unread_replies = []; new_mentions = called ∷ [] })
unfolding catch_up ◌>>=◌ transaction now find_where update_where
caught = refl

down : (refusing 6).fails (catch_up (refusing 6) "m" news).1.step ≡ true
unfolding catch_up ◌>>=◌ transaction now find_where update_where
down = refl

refusing_6-Sorts : Sorts (refusing 6)
refusing_6-Sorts = record { rearranges = calm-Sorts.rearranges; ascends = calm-Sorts.ascends }

catch_up_handler_lost_example :
    let lost = catch_up_handler (refusing 6) (some mallory) news in
    (lost.0 ≡ err driver)
    × (record { unread_replies = []; new_mentions = called ∷ [] }
        ≡ fresh_result (refusing 6) "m" news.db)
    × IsQuiet "m" lost.1.db
    × ((later : Env)
        → Works later
        → Sorts later
        → (step : ℕ)
        → (catch_up later "m" (record { db = lost.1.db; step = step })).0
          ≡ ok (record { unread_replies = []; new_mentions = [] }))
catch_up_handler_lost_example =
    catch_up_handler_lost (refusing 6) refusing_6-Sorts mallory news
      (record { unread_replies = []; new_mentions = called ∷ [] }) caught down
