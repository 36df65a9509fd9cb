-- ===== src/Tools/Registrar.antt =====
-- internal/tools/rendezvous/registrar.go and Actor.AllowedTool: the check before every tool, and the
-- audit row behind it.
pub mod Preview
use Prim.Native.Char.{code}
use Prim.Native.String
use mcp_symposium.Prelude.{
  ℕ, zero, suc, String, Bool, true, false, Option, none, some, List, [], ◌∷◌, any, ltb, nat_eq,
  ◌==◌, trim_space, if◌then◌else◌,
}
use mcp_symposium.Models.{Actor}
use mcp_symposium.Engine.{Error, no_actor, not_allowed, Result, ok, err, World, Tx}
use mcp_symposium.Engine.Transactions.{is_err}
use mcp_symposium.BoardSecret.Seen.{onto_first}

-- strings.Split(s, ",")
abbrev pub split_commas : String → List String
split_commas String.[] = "" ∷ []
split_commas (String.◌∷◌ c s) =
    let rest = split_commas s in
    if nat_eq (code c) b',' then "" ∷ rest else onto_first (String.◌∷◌ c "") rest

-- AllowedTool
unfoldable pub allowed_tool : Actor → String → Bool
allowed_tool a tool =
    if a.tool_allowlist == ""
    then true
    else any (λ t. trim_space t == tool) (split_commas a.tool_allowlist)

-- checkToolAllowed: the error, if there is one
unfoldable pub check_tool_allowed : Option Actor → String → Option Error
check_tool_allowed none tool = some no_actor
check_tool_allowed (some a) tool = if allowed_tool a tool then none else some not_allowed

-- ToolCall, without the identifier and the times
pub record ToolCall : Type 0 where
  pub actor_id : String
  pub tool : String
  pub input_json : String
  pub output_json : String
  pub output_size : ℕ
  pub truncated : Bool
  pub is_error : Bool

abbrev pub max_preview : ℕ
max_preview = 4096

-- the first characters
unfoldable pub first_chars : ℕ → String → String
first_chars zero s = ""
first_chars (suc n) String.[] = ""
first_chars (suc n) (String.◌∷◌ c s) = String.◌∷◌ c (first_chars n s)

-- the preview of an output
unfoldable pub preview : String → String
preview s =
    if ltb max_preview (String.len s)
    then (if ltb 1024 (String.count s) then first_chars 1024 s else s)
    else s

abbrev pub id_of : Option Actor → String
id_of none = ""
id_of (some a) = a.id

module _ {A : Type 0} where
  abbrev pub guarded :
      Option Error
      → (World → Result A × Option ToolCall × World)
      → World
      → Result A × Option ToolCall × World
  guarded (some e) go w = (err e, none, w)
  guarded none go w = go w

  -- recorded: the handler's answer, with the row that is written behind it
  unfoldable pub recorded :
      Option Actor
      → String
      → String
      → (Result A → String)
      → Tx A
      → World
      → Result A × Option ToolCall × World
  recorded actor tool input to_json h = guarded (check_tool_allowed actor tool) λ w.
      let (r, w') = h w in
      (
        r,
        some (record {
          actor_id = id_of actor;
          tool = tool;
          input_json = input;
          output_json = preview (to_json r);
          output_size = String.len (to_json r);
          truncated = ltb max_preview (String.len (to_json r));
          is_error = is_err r;
        }),
        w',
      )

  -- recordedMetaOnly
  unfoldable pub recorded_meta_only :
      Option Actor → String → Tx A → World → Result A × Option ToolCall × World
  recorded_meta_only actor tool h = guarded (check_tool_allowed actor tool) λ w.
      let (r, w') = h w in
      (
        r,
        some (record {
          actor_id = id_of actor;
          tool = tool;
          input_json = "\"<redacted: secret handoff>\"";
          output_json = "\"<redacted: secret handoff>\"";
          output_size = 0;
          truncated = false;
          is_error = is_err r;
        }),
        w',
      )
