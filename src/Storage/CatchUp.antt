-- ===== src/Storage/CatchUp.antt =====
-- internal/storage/catchup.go and catchup_summary.go: what is new for an actor, read and marked, or
-- only counted.
pub mod Cursor
pub mod Twice
pub mod Summary
pub mod Latest
pub mod Succeeds
use mcp_symposium.Prelude.{
  ℕ, suc, ◌+◌, String, Bool, false, ◌&&◌, ◌||◌, Option, none, some, List, [], ◌∷◌, ◌++◌, map, ◌==◌,
  ltb, is_none, if◌then◌else◌, select, length,
}
use mcp_symposium.Models.{Reply, ThreadWatch, Mention, Watcher, HandoffAlert, Db}
use mcp_symposium.Engine.{Env, Tx, pure, ◌>>=◌, ◌>>◌, transaction, now, new_uuid, ok, statement}
use mcp_symposium.Engine.Tables.{create, find_where, count_where, update_where}
use mcp_symposium.Storage.Schema.{replies, thread_watches, mentions, watchers, alerts}
use mcp_symposium.Storage.Thread.{is_watch}

pub record CatchUpResult : Type 0 where
  pub unread_replies : List Reply
  pub new_mentions : List Mention

pub record CatchUpSummary : Type 0 where
  pub unread_reply_count : ℕ
  pub unseen_mention_count : ℕ
  pub unseen_handoff_alert_count : ℕ

-- thread_id = ? AND created_at > ?
abbrev pub is_unread : ThreadWatch → Reply → Bool
is_unread w r = r.thread_id == w.thread_id && ltb w.last_read_at r.created_at

-- mentioned_actor_id = ? AND seen_at IS NULL
abbrev pub is_new : String → Mention → Bool
is_new actor_id m = m.mentioned_actor_id == actor_id && is_none m.seen_at

-- actor_id = ? AND seen_at IS NULL
abbrev pub is_unseen : String → HandoffAlert → Bool
is_unseen actor_id a = a.actor_id == actor_id && is_none a.seen_at

-- replies[len(replies)-1]
abbrev pub last : Reply → List Reply → Reply
last r [] = r
last r (s ∷ rs) = last s rs

abbrev pub is_text : Option String → String → Bool
is_text none s = false
is_text (some t) s = t == s

module _ (env : Env) where
  -- ORDER BY created_at asc
  unfoldable pub unread_of : ThreadWatch → Tx (List Reply)
  unread_of w = do
    found ← find_where env replies (is_unread w)
    pure (env.sort_asc (λ r. r.created_at) found)

  -- move the cursor to the newest of the replies, if there are any
  pub advance : String → ThreadWatch → List Reply → Tx Unit
  advance actor_id w [] = pure tt
  advance actor_id w (r ∷ rs) = do
    at ← now env
    update_where env thread_watches (is_watch actor_id w.thread_id)
        (λ v. record v { last_read_at = (last r rs).created_at; updated_at = at })
    pure tt

  -- the loop over the watches
  pub read_watches : String → List ThreadWatch → Tx (List Reply)
  unfolding advance unread_of
  read_watches actor_id [] = pure []
  read_watches actor_id (w ∷ ws) = do
    unread ← unread_of w
    advance actor_id w unread
    rest ← read_watches actor_id ws
    pure (unread ++ rest)

  -- mark what was found, if anything was
  pub mark_mentions : String → List Mention → Tx Unit
  mark_mentions actor_id [] = pure tt
  mark_mentions actor_id (m ∷ ms) = do
    at ← now env
    update_where env mentions (is_new actor_id) (λ n. record n { seen_at = some at })
    pure tt

  pub read_all : String → Tx CatchUpResult
  unfolding read_watches mark_mentions
  read_all actor_id = do
    watches ← find_where env thread_watches (λ w. w.actor_id == actor_id)
    unread ← read_watches actor_id watches
    new ← find_where env mentions (is_new actor_id)
    mark_mentions actor_id new
    pure (record { unread_replies = unread; new_mentions = new })

  -- CatchUp
  unfoldable pub catch_up : String → Tx CatchUpResult
  unfolding read_all
  catch_up actor_id = transaction env (read_all actor_id)

  pub count_watches : List ThreadWatch → Tx ℕ
  count_watches [] = pure 0
  count_watches (w ∷ ws) = do
    n ← count_where env replies (is_unread w)
    rest ← count_watches ws
    pure (n + rest)

  -- CountUnseenHandoffAlerts
  unfoldable pub count_unseen_handoff_alerts : String → Tx ℕ
  count_unseen_handoff_alerts actor_id = count_where env alerts (is_unseen actor_id)

  -- GetCatchUpSummary
  unfoldable pub get_catch_up_summary : String → Tx CatchUpSummary
  unfolding count_watches count_unseen_handoff_alerts
  get_catch_up_summary actor_id = do
    watches ← find_where env thread_watches (λ w. w.actor_id == actor_id)
    unread ← count_watches watches
    unseen ← count_where env mentions (is_new actor_id)
    alarms ← count_unseen_handoff_alerts actor_id
    pure (record {
      unread_reply_count = unread;
      unseen_mention_count = unseen;
      unseen_handoff_alert_count = alarms;
    })

  -- WatchersOf
  unfoldable pub watchers_of : String → Tx (List String)
  watchers_of thread_id = do
    found ← find_where env watchers (λ w. w.thread_id == thread_id)
    pure (map (λ w. w.actor_id) found)

  -- MentionedActorIDsForReply
  unfoldable pub mentioned_for_reply : String → Tx (List String)
  mentioned_for_reply reply_id = do
    found ← find_where env mentions (λ m. is_text m.reply_id reply_id)
    pure (map (λ m. m.mentioned_actor_id) found)

  -- MentionedActorIDsForThread
  unfoldable pub mentioned_for_thread : String → Tx (List String)
  mentioned_for_thread thread_id = do
    found ← find_where env mentions (λ m. is_text m.thread_id thread_id && is_none m.reply_id)
    pure (map (λ m. m.mentioned_actor_id) found)
