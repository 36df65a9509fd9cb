-- ===== src/Storage/Thread.antt =====
-- internal/storage/thread_repo.go, thread_watch.go, thread_status.go: threads, replies, who watches
-- what, and how far each watcher has read. gorm fills CreatedAt and UpdatedAt in Create, from one
-- reading of the clock.
pub mod Atomic
mod Frame
pub mod Created
pub mod Replied
pub mod Cursors
pub mod Status
pub mod Watching
use mcp_symposium.Prelude.{
  ℕ, String, Bool, ◌&&◌, Option, none, some, List, [], ◌∷◌, ◌==◌, trim_space, if◌then◌else◌,
}
use mcp_symposium.Models.{Thread, Reply, Watcher, ThreadWatch, Tag, ThreadTag, MentionReport}
use mcp_symposium.Engine.{
  Env, empty_title, empty_body, no_thread, Result, ok, err, Tx, pure, fail, attempt, ◌>>=◌, ◌>>◌,
  transaction, now, new_uuid,
}
use mcp_symposium.Engine.Tables.{
  create, create_or_ignore, first_where, update_where, upsert, delete_where,
}
use mcp_symposium.Storage.Schema.{threads, replies, watchers, thread_watches, tags, thread_tags}
use mcp_symposium.Storage.Mention.{create_mentions}

-- fmt.Errorf("thread %q not found: %w", threadID, err)
unfoldable pub or_no_thread : {A : Type 0} → String → Result A → Tx A
or_no_thread thread_id (ok a) = pure a
or_no_thread thread_id (err e) = fail (no_thread thread_id e)

abbrev pub is_watch : String → String → ThreadWatch → Bool
is_watch actor_id thread_id w = w.actor_id == actor_id && w.thread_id == thread_id

-- the row before gorm fills its times
abbrev pub draft_thread : String → String → String → String → Option String → Thread
draft_thread id author_id title body external_id = record {
  id = id;
  title = title;
  body = body;
  external_id = external_id;
  status = "open";
  author_id = author_id;
  created_at = 0;
  updated_at = 0;
}

module _ (env : Env) where
  -- one round of the loop in attachTags
  pub attach_tag : String → String → Tx Unit
  attach_tag thread_id name = if name == "" then pure tt else (do
    id ← new_uuid env
    create_or_ignore env tags (record { id = id; name = name })
    tag ← first_where env tags (λ t. t.name == name)
    create_or_ignore env thread_tags (record { thread_id = thread_id; tag_id = tag.id })
    pure tt)

  unfoldable pub attach_tags : String → List String → Tx Unit
  unfolding attach_tag
  attach_tags thread_id [] = pure tt
  attach_tags thread_id (name ∷ names) = do
    attach_tag thread_id (trim_space name)
    attach_tags thread_id names

  -- the body of the transaction in CreateThreadExt
  pub insert_thread : String → Thread → List String → Tx (Thread × MentionReport)
  unfolding attach_tags
  insert_thread author_id draft tag_names = do
    at ← now env
    let thread = record draft { created_at = at; updated_at = at }
    create env threads thread
    create env watchers (record { thread_id = thread.id; actor_id = author_id })
    at' ← now env
    create env thread_watches (record {
      actor_id = author_id;
      thread_id = thread.id;
      last_read_at = thread.created_at;
      updated_at = at';
    })
    attach_tags thread.id tag_names
    report ← create_mentions env none (some thread.id) author_id thread.body
    pure (thread, report)

  -- CreateThreadExt
  unfoldable pub create_thread_ext :
      String → String → String → List String → Option String → Tx (Thread × MentionReport)
  unfolding insert_thread
  create_thread_ext author_id title body tag_names external_id =
      if trim_space title == ""
      then fail empty_title
      else if trim_space body == ""
      then fail empty_body
      else (do
        id ← new_uuid env
        transaction env
            (insert_thread author_id (draft_thread id author_id title body external_id) tag_names))

  -- CreateThread
  unfoldable pub create_thread :
      String → String → String → List String → Tx (Thread × MentionReport)
  create_thread author_id title body tag_names =
      create_thread_ext author_id title body tag_names none

  -- upsertThreadWatch
  unfoldable pub upsert_thread_watch : String → String → ℕ → Tx Unit
  upsert_thread_watch actor_id thread_id read_at = do
    at ← now env
    upsert env thread_watches (λ a b. is_watch a.actor_id a.thread_id b)
        (λ w. record w { last_read_at = read_at; updated_at = at })
        (record {
          actor_id = actor_id;
          thread_id = thread_id;
          last_read_at = read_at;
          updated_at = at;
        })

  -- ensureThreadWatch: the zero time leaves the whole thread unread
  unfoldable pub ensure_thread_watch : String → String → Tx Unit
  ensure_thread_watch actor_id thread_id = do
    at ← now env
    create_or_ignore env thread_watches
        (record { actor_id = actor_id; thread_id = thread_id; last_read_at = 0; updated_at = at })
    pure tt

  pub add_watchers : String → List String → Tx Unit
  add_watchers thread_id [] = pure tt
  add_watchers thread_id (watcher_id ∷ ids) = do
    create_or_ignore env watchers (record { thread_id = thread_id; actor_id = watcher_id })
    add_watchers thread_id ids

  pub ensure_watches : String → String → List String → Tx Unit
  unfolding ensure_thread_watch
  ensure_watches author_id thread_id [] = pure tt
  ensure_watches author_id thread_id (watcher_id ∷ ids) = do
    if watcher_id == author_id then pure tt else ensure_thread_watch watcher_id thread_id
    ensure_watches author_id thread_id ids

  -- the body of the transaction in AddReply
  pub insert_reply : String → String → String → List String → String → Tx (Reply × MentionReport)
  unfolding or_no_thread add_watchers upsert_thread_watch ensure_watches
  insert_reply thread_id author_id body extra_watcher_ids id = do
    found ← attempt (first_where env threads (λ t. t.id == thread_id))
    thread ← or_no_thread thread_id found
    at ← now env
    let reply : Reply = record {
      id = id;
      thread_id = thread_id;
      body = body;
      author_id = author_id;
      created_at = at;
    }
    create env replies reply
    add_watchers thread_id (author_id ∷ extra_watcher_ids)
    upsert_thread_watch author_id thread_id at
    ensure_watches author_id thread_id extra_watcher_ids
    report ← create_mentions env (some id) (some thread_id) author_id body
    pure (reply, report)

  -- AddReply
  unfoldable pub add_reply : String → String → String → List String → Tx (Reply × MentionReport)
  unfolding insert_reply
  add_reply thread_id author_id body extra_watcher_ids =
      if trim_space body == "" then fail empty_body else (do
        id ← new_uuid env
        transaction env (insert_reply thread_id author_id body extra_watcher_ids id))

  -- WatchThread
  unfoldable pub watch_thread : String → String → Tx Unit
  unfolding or_no_thread ensure_thread_watch
  watch_thread actor_id thread_id = transaction env do
    found ← attempt (first_where env threads (λ t. t.id == thread_id))
    thread ← or_no_thread thread_id found
    create_or_ignore env watchers (record { thread_id = thread_id; actor_id = actor_id })
    ensure_thread_watch actor_id thread_id

  -- UnwatchThread
  unfoldable pub unwatch_thread : String → String → Tx Unit
  unwatch_thread actor_id thread_id = transaction env do
    delete_where env watchers (λ w. w.thread_id == thread_id && w.actor_id == actor_id)
    delete_where env thread_watches (λ w. w.thread_id == thread_id && w.actor_id == actor_id)

  -- setThreadStatus
  pub set_thread_status : String → String → Tx Thread
  unfolding or_no_thread
  set_thread_status thread_id status = do
    found ← attempt (first_where env threads (λ t. t.id == thread_id))
    thread ← or_no_thread thread_id found
    at ← now env
    update_where env threads (λ t. t.id == thread.id)
        (λ t. record t { status = status; updated_at = at })
    pure (record thread { status = status; updated_at = at })

  -- ResolveThread, ReopenThread
  unfoldable pub resolve_thread : String → Tx Thread
  unfolding set_thread_status
  resolve_thread thread_id = set_thread_status thread_id "resolved"

  unfoldable pub reopen_thread : String → Tx Thread
  unfolding set_thread_status
  reopen_thread thread_id = set_thread_status thread_id "open"
