-- ===== src/Tests/Humans.antt =====
-- A person who logs in for the first time, and again with another role.
use mcp_symposium.Prelude.{true, ◌≡◌, refl, some, [], ◌∷◌, ◌==◌}
use mcp_symposium.Models.{human}
use mcp_symposium.Engine.{World}
use mcp_symposium.Engine.Ensures.{Outcome}
use mcp_symposium.Storage.Humans.{get_or_create_human_actor}
use mcp_symposium.Storage.Humans.Linked.{linked, get_or_create_again}
use mcp_symposium.Tests.World.{calm, empty, start}

abbrev returning : World
returning = start (record empty {
  actors =
      record { id = "h1"; display_name = "Ann"; kind = human; created_at = 1; tool_allowlist = "" }
      ∷ [];
  identities = record { actor_id = "h1"; keycloak_subject = "sub-1"; role = "user" } ∷ [];
})

get_or_create_again_example :
    let r = get_or_create_human_actor calm "sub-1" "Ann" "admin" returning in
    (linked "sub-1" r.1.db ≡ some "h1") × Outcome (λ a d. (a.id == "h1") ≡ true) r
get_or_create_again_example = get_or_create_again calm "sub-1" "Ann" "admin" "h1" returning refl
