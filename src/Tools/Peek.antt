-- ===== src/Tools/Peek.antt =====
-- internal/tools/rendezvous/tool_peek.go.
pub mod Silent
use mcp_symposium.Prelude.{ℕ, String, Option, none, some}
use mcp_symposium.Models.{Actor}
use mcp_symposium.Engine.{Env, no_actor, Tx, pure, fail, ◌>>=◌}
use mcp_symposium.Storage.CatchUp.{CatchUpSummary, get_catch_up_summary}
use mcp_symposium.Storage.CatchUp.Latest.{latest_activity_at}

pub record PeekOutput : Type 0 where
  pub actor_id : String
  pub unread_reply_count : ℕ
  pub unseen_mention_count : ℕ
  pub unseen_handoff_alert_count : ℕ
  pub max_created_at : Option ℕ

abbrev pub peeked : String → CatchUpSummary → Option ℕ → PeekOutput
peeked actor_id s max_at = record {
  actor_id = actor_id;
  unread_reply_count = s.unread_reply_count;
  unseen_mention_count = s.unseen_mention_count;
  unseen_handoff_alert_count = s.unseen_handoff_alert_count;
  max_created_at = max_at;
}

-- peekHandler
unfoldable pub peek_handler : Env → Option Actor → Tx PeekOutput
peek_handler env none = fail no_actor
peek_handler env (some actor) = do
  summary ← get_catch_up_summary env actor.id
  max_at ← latest_activity_at env actor.id
  pure (peeked actor.id summary max_at)
