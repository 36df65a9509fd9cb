-- ===== src/Tests/CatchUp.antt =====
-- A board where bob has two threads to catch up on, a mention and an alert.
use mcp_symposium.Prelude.{ℕ, String, ◌≡◌, none, some, [], ◌∷◌, length, count}
use mcp_symposium.Models.{Reply, Actor, agent}
use mcp_symposium.Engine.{World, ok}
use mcp_symposium.Storage.CatchUp.{is_unseen, catch_up}
use mcp_symposium.Storage.CatchUp.Twice.{fresh_result, IsQuiet, catch_up_lem, catch_up_twice}
use mcp_symposium.Tools.Peek.{PeekOutput, peek_handler}
use mcp_symposium.Tools.Peek.Silent.{peek_handler-catch_up, peek_handler-db}
use mcp_symposium.Tests.World.{calm, calm-Works, calm-Sorts, refusing, empty, start}

abbrev reply_at : String → String → ℕ → Reply
reply_at id thread_id t = record {
  id = id;
  thread_id = thread_id;
  body = "hi";
  author_id = "alice";
  created_at = t;
}

abbrev board : World
board = start (record empty {
  replies =
      reply_at "r3" "t1" 30
      ∷ reply_at "r2" "t1" 20
      ∷ reply_at "r1" "t1" 10
      ∷ reply_at "q1" "t2" 15
      ∷ [];
  thread_watches =
      record { actor_id = "bob"; thread_id = "t1"; last_read_at = 12; updated_at = 12 }
      ∷ record { actor_id = "alice"; thread_id = "t1"; last_read_at = 30; updated_at = 30 }
      ∷ record { actor_id = "bob"; thread_id = "t2"; last_read_at = 0; updated_at = 0 }
      ∷ [];
  mentions =
      record {
        id = "m1";
        reply_id = some "r2";
        thread_id = some "t1";
        mentioned_actor_id = "bob";
        created_at = 20;
        seen_at = none;
      }
      ∷ [];
  alerts =
      record {
        id = "a1";
        actor_id = "bob";
        secret_id = "s1";
        kind = "fetched";
        by_actor_id = "alice";
        created_at = 20;
        seen_at = none;
      }
      ∷ [];
})

catch_up_lem_example :
    let r = catch_up calm "bob" board in
    (r.0 ≡ ok (fresh_result calm "bob" board.db)) × IsQuiet "bob" r.1.db
catch_up_lem_example = catch_up_lem calm calm-Works calm-Sorts "bob" board

catch_up_twice_example :
    (catch_up calm "bob" (catch_up calm "bob" board).1).0
    ≡ ok (record { unread_replies = []; new_mentions = [] })
catch_up_twice_example = catch_up_twice calm calm-Works calm-Sorts "bob" board

abbrev bob : Actor
bob = record { id = "bob"; display_name = "bob"; kind = agent; created_at = 1; tool_allowlist = "" }

peek_handler-catch_up_example :
    (out : PeekOutput) × (v : World) × (peek_handler calm (some bob) board ≡ (ok out, v))
    × ((catch_up calm "bob" v).0 ≡ ok (fresh_result calm "bob" board.db))
    × (out.unread_reply_count ≡ length (fresh_result calm "bob" board.db).unread_replies)
    × (out.unseen_mention_count ≡ length (fresh_result calm "bob" board.db).new_mentions)
    × (out.unseen_handoff_alert_count ≡ count (is_unseen "bob") board.db.alerts)
peek_handler-catch_up_example = peek_handler-catch_up calm calm-Works calm-Sorts bob board

peek_handler-db_example : (peek_handler (refusing 2) (some bob) board).1.db ≡ board.db
peek_handler-db_example = peek_handler-db (refusing 2) (some bob) board
