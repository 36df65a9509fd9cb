-- ===== src/Tools/WaitForActivity/Reports.antt =====
-- A call that finds news when it starts reports it at once.
use mcp_symposium.Prelude.{
  ℕ, String, ◌≡◌, refl, ◌∙◌, true, false, Option, none, some, List, [], ◌∷◌, select, ◌+◌, ltb,
  arith,
}
use mcp_symposium.Models.{Actor, ThreadWatch, Db}
use mcp_symposium.Encoding.{ℤ}
use mcp_symposium.Engine.{Env, ok, World, tick, pure}
use mcp_symposium.Engine.Runs.{bind_ok, read_ok}
use mcp_symposium.Engine.Tables.{find_where}
use mcp_symposium.Engine.Transactions.{Works}
use mcp_symposium.Storage.CatchUp.{CatchUpSummary, is_unread, is_new, get_catch_up_summary}
use mcp_symposium.Storage.CatchUp.Latest.{later, newest, newest_unread, latest_activity_at}
use mcp_symposium.Storage.CatchUp.Twice.{watches_of}
use mcp_symposium.Activity.{Hub}
use mcp_symposium.Tools.WaitForActivity.{
  WaitForActivityOutput, reported, is_quiet, Turn, with_latest, look, wait_for_activity_handler,
}

-- what a summary counts, all together
abbrev pub news_of : CatchUpSummary → ℕ
news_of s = s.unread_reply_count + s.unseen_mention_count + s.unseen_handoff_alert_count

is_quiet-news : (s : CatchUpSummary) → ltb 0 (news_of s) ≡ true → is_quiet s ≡ false
is_quiet-news s news = ground arith

abbrev newest_mention : String → Db → Option ℕ
newest_mention actor_id d = newest (λ m. m.created_at) (select (is_new actor_id) d.mentions)

module _ (env : Env) (works : Works env) where
  newest_unread-returns :
      (ws : List ThreadWatch) (latest : Option ℕ) (w : World)
      → (o : Option ℕ) × (w' : World) × (newest_unread env ws latest w ≡ (ok o, w'))
  unfolding newest_unread pure
  newest_unread-returns [] latest w = (latest, w, refl)
  newest_unread-returns (t ∷ ts) latest w =
      let found = newest (λ r. r.created_at) (select (is_unread t) w.db.replies) in
      let (o, w', rest) = newest_unread-returns ts (later latest found) (tick w) in
      (o, w', bind_ok _ _ w found (tick w) (read_ok env _ w works) ∙ rest)

  pub latest_activity_at-returns :
      (actor_id : String) (w : World)
      → (o : Option ℕ) × (w' : World) × (latest_activity_at env actor_id w ≡ (ok o, w'))
  unfolding latest_activity_at find_where pure
  latest_activity_at-returns actor_id w =
      let watches = watches_of actor_id w.db in
      let (latest, w', first) = newest_unread-returns watches none (tick w) in
      let found = newest_mention actor_id w'.db in
      (
        later latest found,
        tick w',
        bind_ok _ _ w watches (tick w) (read_ok env (watches_of actor_id) w works)
            ∙ bind_ok _ _ (tick w) latest w' first
            ∙ bind_ok _ _ w' found (tick w') (read_ok env (newest_mention actor_id) w' works),
      )

  pub look-news :
      (actor_id : String) (s : CatchUpSummary) (w w' : World)
      → get_catch_up_summary env actor_id w ≡ (ok s, w')
      → is_quiet s ≡ false
      → (out : WaitForActivityOutput) × (v : World) × (look env actor_id w ≡ (ok (some out), v))
        × (out.activity ≡ true)
        × (out.unread_reply_count ≡ s.unread_reply_count)
        × (out.unseen_mention_count ≡ s.unseen_mention_count)
  unfolding look with_latest pure
  look-news actor_id s w w' counted news =
      let (o, v, latest) = latest_activity_at-returns actor_id w' in
      (
        reported actor_id s o,
        v,
        bind_ok _ _ w s w' counted ∙ rw news (bind_ok _ _ w' o v latest),
        refl,
        refl,
        refl,
      )

  -- When the summary of an actor counts an unread reply, a new mention or an unseen alert as the
  -- call starts, the handler answers with activity and the counts, whatever would happen later:
  -- when no statement is refused.
  pub wait_for_activity_handler-news :
      (actor : Actor) (seconds : ℤ) (started : ℕ) (turns : List Turn) (h : Hub) (w w' : World)
      (s : CatchUpSummary)
      → get_catch_up_summary env actor.id w ≡ (ok s, w')
      → ltb 0 (news_of s) ≡ true
      → (out : WaitForActivityOutput) × ((wait_for_activity_handler env
            (some actor)
            seconds
            started
            turns
            h
            w).0
          ≡ some (ok out))
        × (out.activity ≡ true)
        × (out.unread_reply_count ≡ s.unread_reply_count)
        × (out.unseen_mention_count ≡ s.unseen_mention_count)
  unfolding wait_for_activity_handler
  wait_for_activity_handler-news actor seconds started turns h w w' s counted news =
      let (out, v, looked, active, replies, mentions) =
        look-news actor.id s w w' counted (is_quiet-news s news) in
      (out, rw looked refl, active, replies, mentions)
