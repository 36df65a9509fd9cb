-- ===== src/Tests/SendSecret.antt =====
-- An actor who sends a letter through the server, and an audit row.
use Prim.Native.String
use mcp_symposium.Prelude.{◌≤◌, String, ◌≡◌, refl, none, some, ◌==◌, ltb, if◌then◌else◌, trim_space}
use mcp_symposium.Models.{Actor, agent}
use mcp_symposium.Engine.{not_allowed}
use mcp_symposium.Engine.Keeps.{Keeps}
use mcp_symposium.Tools.SendSecret.{Wire, send_secret_handler}
use mcp_symposium.Tools.SendSecret.Sound.{HasSound, send_secret_handler-HasSound}
use mcp_symposium.Tools.Registrar.{
  allowed_tool, check_tool_allowed, first_chars, max_preview, preview,
}
use mcp_symposium.Tools.Registrar.Preview.{preview-le}
use mcp_symposium.Tests.World.{calm}
use mcp_symposium.Tests.ThreadQuery.{dots}
use mcp_symposium.Tests.Envelope.{toy, letter, alice_bundle}

abbrev alice : Actor
alice = record {
  id = "a";
  display_name = "alice";
  kind = agent;
  created_at = 1;
  tool_allowlist = "reply, send_secret";
}

abbrev wire : Wire
wire = record {
  bundle_of = λ s. some alice_bundle;
  envelope_of = λ s. some letter;
  is_uuid = λ s. s == "s1";
}

scope :
    (check_tool_allowed (some alice) "send_secret" ≡ none)
    × (check_tool_allowed (some alice) "search" ≡ some not_allowed)
unfolding check_tool_allowed allowed_tool trim_space
scope = (refl, refl)

send_secret_handler-HasSound_example :
    Keeps (HasSound wire) (send_secret_handler calm toy wire (some alice) "bob" "{}")
send_secret_handler-HasSound_example =
    send_secret_handler-HasSound calm toy wire (some alice) "bob" "{}"

-- an output of five thousand bytes
abbrev long_output : String
long_output = dots 5000

preview-le_example :
    (String.len (preview long_output) ≤ max_preview)
    × (preview long_output ≡ (
        if ltb max_preview (String.len long_output)
        then first_chars 1024 long_output
        else long_output))
preview-le_example = preview-le long_output
