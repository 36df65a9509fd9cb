-- ===== src/Storage/Thread/Cursors.antt =====
-- AddReply moves no cursor but the author's in the thread of the reply.
use mcp_symposium.Prelude.{
  ℕ, String, false, ◌≡◌, refl, ap, ◌∙◌, ◌&&◌, Option, some, List, arith, ◌==◌, eq_iff,
}
use mcp_symposium.Prelude.Rows.{option_map, find-rewrite_ne}
use mcp_symposium.Prelude.Cases.{find_map-append}
use mcp_symposium.Models.{ThreadWatch, Reply, Db}
use mcp_symposium.Engine.{Env, World, Result, ok, err}
use mcp_symposium.Engine.Keeps.{
  Keeps, keeps_rules, Keeps-bind, Keeps-now, Keeps-create, Keeps-upsert,
}
use mcp_symposium.Engine.Tables.{create}
use mcp_symposium.Storage.Schema.{replies, thread_watches}
use mcp_symposium.Storage.Mention.{create_mentions}
use mcp_symposium.Storage.Mention.Frame.{create_mentions-Keeps}
use mcp_symposium.Storage.Thread.{
  add_watchers, ensure_watches, is_watch, or_no_thread, add_reply, insert_reply,
  upsert_thread_watch,
}
use mcp_symposium.Storage.Thread.Frame.{add_watchers-Keeps}
use mcp_symposium.Storage.Thread.Created.{cursor}
use mcp_symposium.Storage.Thread.Replied.{ensure_watches-Keeps}

module _ (env : Env) (actor_id in_thread : String) (read : ℕ) (thread_id author_id : String)
    (other : (author_id == actor_id && thread_id == in_thread) ≡ false) where
  abbrev IsAt : Db → Type 0
  IsAt d = cursor actor_id in_thread d ≡ some read

  own_cursor-Keeps : (t : ℕ) → Keeps IsAt (upsert_thread_watch env author_id thread_id t)
  unfolding upsert_thread_watch
  own_cursor-Keeps t = Keeps-bind _ _ (Keeps-now env) λ at.
      Keeps-upsert env thread_watches _ _ _
        (λ d h.
          ap (option_map (λ (w : ThreadWatch). w.last_read_at)) (
            find-rewrite_ne (is_watch author_id thread_id)
              (λ (w : ThreadWatch). record w { last_read_at = t; updated_at = at })
              (is_watch actor_id in_thread) (λ x. refl)
              (λ x e.
                ground (arith, eq_iff x.actor_id author_id, eq_iff x.thread_id thread_id, other))
              d.thread_watches)
          ∙ h)
        (λ d h.
          find_map-append (is_watch actor_id in_thread) (λ w. w.last_read_at) d.thread_watches _ h)

  reply-Keeps : (r : Reply) → Keeps IsAt (create env replies r)
  reply-Keeps r = Keeps-create env replies r (λ d h _. h)

  watchers-Keeps : (ids : List String) → Keeps IsAt (add_watchers env thread_id ids)
  watchers-Keeps ids = add_watchers-Keeps {P = IsAt} (λ d w h. h) env thread_id ids

  or_no_thread-Keeps : {A : Type 0} (r : Result A) → Keeps IsAt (or_no_thread thread_id r)
  unfolding or_no_thread
  or_no_thread-Keeps (ok a) = search keeps_rules
  or_no_thread-Keeps (err e) = search keeps_rules

  added-Keeps : (ids : List String) → Keeps IsAt (ensure_watches env author_id thread_id ids)
  added-Keeps ids =
      ensure_watches-Keeps {P = IsAt}
        (λ d w h.
          find_map-append (is_watch actor_id in_thread) (λ w. w.last_read_at) d.thread_watches w h)
        env author_id thread_id ids

  mentions-Keeps :
      (reply_id thread : Option String) (body : String)
      → Keeps IsAt (create_mentions env reply_id thread author_id body)
  mentions-Keeps reply_id thread body =
      create_mentions-Keeps {P = IsAt} env (λ d l h. h) reply_id thread author_id body

  insert_reply-Keeps :
      (body : String) (ids : List String) (id : String)
      → Keeps IsAt (insert_reply env thread_id author_id body ids id)
  unfolding insert_reply
  insert_reply-Keeps body ids id =
      search
        (
          keeps_rules, or_no_thread-Keeps, reply-Keeps, watchers-Keeps, own_cursor-Keeps,
          added-Keeps, mentions-Keeps,
        )
        depth 24

  add_reply-Keeps :
      (body : String) (ids : List String) → Keeps IsAt (add_reply env thread_id author_id body ids)
  unfolding add_reply
  add_reply-Keeps body ids = search (keeps_rules, insert_reply-Keeps) depth 10

  -- Whoever replies, in whatever thread, and whether AddReply succeeds or not: a cursor that is not
  -- the author's in that thread stays where it is.
  pub cursor-add_reply :
      (body : String) (ids : List String) (w : World)
      → cursor actor_id in_thread w.db ≡ some read
      → cursor actor_id in_thread (add_reply env thread_id author_id body ids w).1.db ≡ some read
  cursor-add_reply body ids w = (add_reply-Keeps body ids).at w
