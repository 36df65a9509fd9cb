-- ===== src/Tests/Wait.antt =====
-- A call that waits for three moments, and one that finds a mention.
use mathlib.Core.Logic.{◌⊎◌}
use mcp_symposium.Prelude.{
  ◌*◌, ◌&&◌, any, false, List, ◌≡◌, refl, true, false, not, some, none, [], ◌∷◌,
}
use mcp_symposium.Models.{Actor, agent}
use mcp_symposium.Encoding.{pos, ltb_ℤ}
use mcp_symposium.Envelope.Format.{second}
use mcp_symposium.Engine.{World, ok, ◌>>=◌}
use mcp_symposium.Engine.Tables.{find_where, count_where}
use mcp_symposium.Activity.{new_hub, register}
use mcp_symposium.Storage.CatchUp.{
  CatchUpSummary, get_catch_up_summary, count_unseen_handoff_alerts,
}
use mcp_symposium.Tools.WaitForActivity.{
  WaitForActivityOutput, quiet, look, wait_loop, Turn, polled, deadline, is_due, wait_timeout,
  wait_max_timeout, wait_for_activity_handler,
}
use mcp_symposium.Tools.WaitForActivity.Select.{is_deadline}
use mcp_symposium.Tools.WaitForActivity.Answers.{
  run_of, IsReport, EndsIn, wait_for_activity_handler-EndsIn,
}
use mcp_symposium.Tools.WaitForActivity.Reports.{wait_for_activity_handler-news}
use mcp_symposium.Tools.WaitForActivity.Bounds.{wait_timeout-le}
use mcp_symposium.Tests.World.{calm, calm-Works, empty, start}

abbrev bob : Actor
bob = record { id = "b"; display_name = "bob"; kind = agent; created_at = 1; tool_allowlist = "" }

-- a poll after five seconds, a moment when nothing is ready, and the deadline after ten
abbrev turns : List Turn
turns =
    record { at = 5 * second; done = false; tick = true; draw = polled; db = empty; hub = λ h. h }
    ∷ record {
      at = 7 * second;
      done = false;
      tick = false;
      draw = deadline;
      db = empty;
      hub = λ h. h;
    }
    ∷ record {
      at = 10 * second;
      done = false;
      tick = true;
      draw = deadline;
      db = empty;
      hub = λ h. h;
    }
    ∷ []

falls_due : any (λ t. is_due (wait_timeout (pos 10)) 0 t.at && is_deadline t.draw) turns ≡ true
unfolding wait_timeout
falls_due = refl

idles : (run_of calm bob (pos 10) 0 new_hub (start empty) turns).0 ≡ some (ok (quiet "b"))
unfolding wait_for_activity_handler wait_timeout wait_loop look get_catch_up_summary ◌>>=◌
    find_where count_where count_unseen_handoff_alerts register
idles = refl

wait_for_activity_handler-EndsIn_example :
    ((out : WaitForActivityOutput) × ((run_of calm bob (pos 10) 0 new_hub (start empty) []).0
        ≡ some (ok out))
      × ((run_of calm bob (pos 10) 0 new_hub (start empty) turns).0 ≡ some (ok out))
      × IsReport calm "b" empty out)
    ⊎ EndsIn calm "b"
        (wait_timeout (pos 10))
        0
        (run_of calm bob (pos 10) 0 new_hub (start empty))
        turns
wait_for_activity_handler-EndsIn_example =
    wait_for_activity_handler-EndsIn calm calm-Works bob (pos 10) 0 turns new_hub (start empty)
      falls_due

abbrev mentioned : World
mentioned = start (record empty {
  mentions =
      record {
        id = "m1";
        reply_id = none;
        thread_id = some "t1";
        mentioned_actor_id = "b";
        created_at = 20;
        seen_at = none;
      }
      ∷ [];
})

abbrev one_mention : CatchUpSummary
one_mention = record {
  unread_reply_count = 0;
  unseen_mention_count = 1;
  unseen_handoff_alert_count = 0;
}

counted :
    get_catch_up_summary calm "b" mentioned
    ≡ (ok one_mention, (get_catch_up_summary calm "b" mentioned).1)
unfolding get_catch_up_summary ◌>>=◌ find_where count_where
counted = refl

wait_for_activity_handler-news_example :
    (out : WaitForActivityOutput) × ((wait_for_activity_handler calm
        (some bob)
        (pos 10)
        0
        turns
        new_hub
        mentioned).0
      ≡ some (ok out))
    × (out.activity ≡ true)
    × (out.unread_reply_count ≡ 0)
    × (out.unseen_mention_count ≡ 1)
wait_for_activity_handler-news_example =
    wait_for_activity_handler-news calm calm-Works bob (pos 10) 0 turns new_hub mentioned
      (get_catch_up_summary calm "b" mentioned).1 one_mention counted refl

-- five seconds, and a number whose product overflows: the call returns at once
timeouts :
    (wait_timeout (pos 5) ≡ pos 5000000000) × (ltb_ℤ (wait_timeout (pos 9223372037)) (pos 0) ≡ true)
unfolding wait_timeout
timeouts = (refl, refl)

wait_timeout-le_example :
    (ltb_ℤ wait_max_timeout (wait_timeout (pos 5)) ≡ false)
    × (not (ltb_ℤ (wait_timeout (pos 5)) (pos second)) ≡ true)
wait_timeout-le_example = wait_timeout-le (pos 5)
