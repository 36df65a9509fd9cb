-- ===== src/Tests/Thread.antt =====
-- Threads created on an empty board, with a driver that works and with one that fails in between.
use mcp_symposium.Prelude.{String, true, false, ◌≡◌, refl, some, [], ◌∷◌, trim_space, ◌==◌}
use mcp_symposium.Models.{Actor, agent}
use mcp_symposium.Engine.{World, ◌>>=◌, new_uuid, now, transaction}
use mcp_symposium.Engine.Tables.{create}
use mcp_symposium.Engine.Ensures.{Outcome}
use mcp_symposium.Engine.Transactions.{is_err}
use mcp_symposium.Storage.Thread.{draft_thread, create_thread_ext}
use mcp_symposium.Storage.Thread.Created.{IsThreadOf, IsCreated, create_thread-Created}
use mcp_symposium.Storage.Thread.Atomic.{create_thread_atomic}
use mcp_symposium.Tests.World.{calm, refusing, empty, start}

abbrev member : String → Actor
member name = record {
  id = name;
  display_name = name;
  kind = agent;
  created_at = 1;
  tool_allowlist = "";
}

abbrev board : World
board = start (record empty { actors = member "alice" ∷ member "bob" ∷ [] })

create_thread-Created_example :
    Outcome
      (λ r d.
        IsThreadOf (draft_thread r.0.id "alice" "Plan" "see @bob" (some "x1")) r.0
        × IsCreated "alice" r.0 d
        × ((trim_space "Plan" == "") ≡ false)
        × ((trim_space "see @bob" == "") ≡ false))
      (create_thread_ext calm "alice" "Plan" "see @bob" ("ops" ∷ []) (some "x1") board)
create_thread-Created_example =
    create_thread-Created calm "alice" "Plan" "see @bob" ("ops" ∷ []) (some "x1") board

failed :
    is_err
      (create_thread_ext (refusing 4) "alice" "Plan" "see @bob" ("ops" ∷ []) (some "x1") board).0
    ≡ true
unfolding create_thread_ext ◌>>=◌ new_uuid transaction trim_space now create
failed = refl

create_thread_atomic_example :
    (create_thread_ext (refusing 4) "alice" "Plan" "see @bob" ("ops" ∷ []) (some "x1") board).1.db
    ≡ board.db
create_thread_atomic_example =
    create_thread_atomic (refusing 4) "alice" "Plan" "see @bob" ("ops" ∷ []) (some "x1") board
      failed
