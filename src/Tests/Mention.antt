-- ===== src/Tests/Mention.antt =====
-- A reply that names one actor twice, in two spellings, and its author.
use mcp_symposium.Prelude.{String, ◌≡◌, ◌≤◌, refl, some, [], ◌∷◌}
use mcp_symposium.Models.{Actor, agent}
use mcp_symposium.Engine.{World}
use mcp_symposium.Engine.Ensures.{Outcome}
use mcp_symposium.Storage.Mention.{create_mentions}
use mcp_symposium.Storage.Mention.Once.{calls, calls-create_mentions}
use mcp_symposium.Tests.World.{calm, empty, start}

abbrev member : String → Actor
member name = record {
  id = name;
  display_name = name;
  kind = agent;
  created_at = 1;
  tool_allowlist = "";
}

abbrev room : World
room = start (record empty {
  actors = member "alice" ∷ member "bob" ∷ [];
  profiles =
      record { actor_id = "bob"; name = "Bob"; nickname = "bobby"; bio = ""; updated_at = 1 } ∷ [];
})

calls-create_mentions_example :
    Outcome
      (λ _ d. ((a : String) → calls "r1" a d ≤ 1) × (calls "r1" "alice" d ≡ 0))
      (create_mentions calm (some "r1") (some "t1") "alice" "@bob @bobby @alice" room)
calls-create_mentions_example =
    calls-create_mentions calm "r1" (some "t1") "alice" "@bob @bobby @alice" room (λ a. refl)
