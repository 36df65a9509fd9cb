-- ===== src/Tests/Reply.antt =====
-- A thread that bob watches and alice answers, resolves and leaves.
use mcp_symposium.Prelude.{true, false, ◌≡◌, refl, none, some, [], ◌∷◌, trim_space, ◌==◌}
use mcp_symposium.Engine.{World, ◌>>=◌, new_uuid, transaction, now}
use mcp_symposium.Engine.Tables.{first_where, create}
use mcp_symposium.Engine.Ensures.{Outcome}
use mcp_symposium.Engine.Transactions.{is_err}
use mcp_symposium.Storage.Thread.{
  add_reply, resolve_thread, reopen_thread, watch_thread, or_no_thread,
}
use mcp_symposium.Storage.Thread.Created.{cursor, thread_row}
use mcp_symposium.Storage.Thread.Replied.{IsReplyOf, IsReplied, add_reply-Replied}
use mcp_symposium.Storage.Thread.Atomic.{add_reply_atomic}
use mcp_symposium.Storage.Thread.Cursors.{cursor-add_reply}
use mcp_symposium.Storage.Thread.Status.{IsNow, resolve_thread-IsNow}
use mcp_symposium.Storage.Thread.Watching.{IsWatching, watch_thread-IsWatching}
use mcp_symposium.Tests.World.{calm, refusing, empty, start}

abbrev pub talk : World
talk = start (record empty {
  threads =
      record {
        id = "t1";
        title = "Plan";
        body = "hello";
        external_id = none;
        status = "open";
        author_id = "carol";
        created_at = 5;
        updated_at = 5;
      }
      ∷ [];
  watchers = record { thread_id = "t1"; actor_id = "bob" } ∷ [];
  thread_watches =
      record { actor_id = "bob"; thread_id = "t1"; last_read_at = 7; updated_at = 7 } ∷ [];
})

add_reply-Replied_example :
    Outcome
      (λ r d.
        IsReplyOf "t1" "alice" "hi @bob" r.0
        × IsReplied r.0 d
        × ((trim_space "hi @bob" == "") ≡ false))
      (add_reply calm "t1" "alice" "hi @bob" ("bob" ∷ "dave" ∷ []) talk)
add_reply-Replied_example = add_reply-Replied calm "t1" "alice" "hi @bob" ("bob" ∷ "dave" ∷ []) talk

reply_failed : is_err (add_reply (refusing 4) "t1" "alice" "hi @bob" [] talk).0 ≡ true
unfolding add_reply ◌>>=◌ new_uuid transaction trim_space now first_where or_no_thread create
reply_failed = refl

add_reply_atomic_example : (add_reply (refusing 4) "t1" "alice" "hi @bob" [] talk).1.db ≡ talk.db
add_reply_atomic_example = add_reply_atomic (refusing 4) "t1" "alice" "hi @bob" [] talk reply_failed

cursor-add_reply_example :
    cursor "bob" "t1" (add_reply calm "t1" "alice" "hi @bob" ("bob" ∷ "dave" ∷ []) talk).1.db
    ≡ some 7
cursor-add_reply_example =
    cursor-add_reply calm "bob" "t1" 7 "t1" "alice" refl "hi @bob" ("bob" ∷ "dave" ∷ []) talk refl

resolve_thread-IsNow_example :
    Outcome (IsNow "t1" "resolved" (thread_row "t1" talk.db)) (resolve_thread calm "t1" talk)
    × Outcome (IsNow "t1" "open" (thread_row "t1" talk.db)) (reopen_thread calm "t1" talk)
resolve_thread-IsNow_example = resolve_thread-IsNow calm "t1" talk

watch_thread-IsWatching_example :
    Outcome
      (λ _. IsWatching calm "alice" "t1" (cursor "alice" "t1" talk.db))
      (watch_thread calm "alice" "t1" talk)
watch_thread-IsWatching_example = watch_thread-IsWatching calm "alice" "t1" talk
