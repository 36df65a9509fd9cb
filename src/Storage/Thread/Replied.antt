-- ===== src/Storage/Thread/Replied.antt =====
-- What AddReply has written when it returns a reply, and whose cursors it leaves alone.
use mcp_symposium.Prelude.{
  ℕ, String, true, false, ◌≡◌, refl, ap, ◌&&◌, Option, some, List, [], ◌∷◌, ◌++◌, inl, inr, arith,
  ◌==◌, trim_space, Bool-cases, find, eq_refl, eq_iff,
}
use mcp_symposium.Prelude.Rows.{option_map, find-append_new, any-append, any_mono}
use mcp_symposium.Prelude.Cases.{find_map-append, find_map-rewrite, any_imp, any-append_old}
use mcp_symposium.Models.{ThreadWatch, Watcher, Reply, Db}
use mcp_symposium.Engine.{Env, World, tick, ◌>>=◌, new_uuid}
use mcp_symposium.Engine.Keeps.{
  Keeps, Keeps-bind, Keeps-now, Keeps-if, Keeps-pure, Keeps-create_or_ignore,
}
use mcp_symposium.Engine.Tables.{create, create_or_ignore}
use mcp_symposium.Engine.Ensures.{
  Ensures, Outcome, Outcome-mono, Ensures-bind, Ensures-Keeps, Ensures-transaction, Ensures-pure,
  Ensures-create, Ensures-create_or_ignore, Ensures-upsert,
}
use mcp_symposium.Storage.Schema.{replies, watchers, thread_watches}
use mcp_symposium.Storage.Mention.{create_mentions}
use mcp_symposium.Storage.Mention.Frame.{create_mentions-Keeps}
use mcp_symposium.Storage.Thread.{
  is_watch, or_no_thread, add_reply, insert_reply, add_watchers, ensure_watches,
  ensure_thread_watch, upsert_thread_watch,
}
use mcp_symposium.Storage.Thread.Frame.{add_watchers-Keeps}
use mcp_symposium.Storage.Thread.Created.{cursor, watches}

-- the reply with this id
abbrev pub reply_row : String → Db → Option Reply
reply_row id d = find (λ r. r.id == id) d.replies

-- The reply is in its table, and its author watches the thread and has read it up to the reply.
pub record IsReplied (r : Reply) (d : Db) : Type 0 where
  pub stored : reply_row r.id d ≡ some r
  pub watched : watches r.author_id r.thread_id d ≡ true
  pub read : cursor r.author_id r.thread_id d ≡ some r.created_at

-- the loop over the added watchers keeps what new cursors keep
module _ {P : Db → Type 0}
    (added : (d : Db) (w : ThreadWatch)
      → P d
      → P (record d { thread_watches = d.thread_watches ++ w ∷ [] }))
    (env : Env) where
  pub ensure_thread_watch-Keeps :
      (actor_id thread_id : String) → Keeps P (ensure_thread_watch env actor_id thread_id)
  unfolding ensure_thread_watch
  ensure_thread_watch-Keeps actor_id thread_id = Keeps-bind _ _ (Keeps-now env) λ at.
      Keeps-bind _ _ (Keeps-create_or_ignore env thread_watches _ (λ d h _. added d _ h))
        λ _. Keeps-pure tt

  pub ensure_watches-Keeps :
      (author_id thread_id : String) (ids : List String)
      → Keeps P (ensure_watches env author_id thread_id ids)
  unfolding ensure_watches
  ensure_watches-Keeps author_id thread_id [] = Keeps-pure tt
  ensure_watches-Keeps author_id thread_id (i ∷ ids) =
      Keeps-bind _ _
        (Keeps-if (i == author_id) _ _ (Keeps-pure tt) (ensure_thread_watch-Keeps i thread_id))
        (λ _. ensure_watches-Keeps author_id thread_id ids)

module _ (env : Env) (r : Reply) where
  abbrev IsStored : Db → Type 0
  IsStored d = reply_row r.id d ≡ some r

  abbrev IsWatched : Db → Type 0
  IsWatched d = IsStored d × (watches r.author_id r.thread_id d ≡ true)

  reply-Ensures : Ensures (λ _. Unit) (create env replies r) (λ _. IsStored)
  reply-Ensures = Ensures-create env replies r λ d _ fresh.
      find-append_new (λ (x : Reply). x.id == r.id) d.replies r
        (any_mono (replies.clash r) (λ x. x.id == r.id)
          (λ x e. ground (arith, eq_iff x.id r.id, eq_refl r.id)) d.replies fresh)
        (eq_refl r.id)

  watcher-Ensures :
      Ensures IsStored
        (create_or_ignore env watchers (record { thread_id = r.thread_id; actor_id = r.author_id }))
        (λ _. IsWatched)
  watcher-Ensures =
      Ensures-create_or_ignore env watchers _
        (λ d h clash. (
          h,
          any_imp (λ (w : Watcher). w.thread_id == r.thread_id && w.actor_id == r.author_id)
              (watchers.clash (record { thread_id = r.thread_id; actor_id = r.author_id }))
              (λ x e. ground (
                arith,
                eq_iff x.thread_id r.thread_id,
                eq_iff x.actor_id r.author_id,
                eq_iff r.thread_id x.thread_id,
                eq_iff r.author_id x.actor_id,
              ))
              d.watchers clash,
        ))
        (λ d h _. (
          h,
          any-append (λ (w : Watcher). w.thread_id == r.thread_id && w.actor_id == r.author_id)
              d.watchers (record { thread_id = r.thread_id; actor_id = r.author_id })
              (rw (eq_refl r.thread_id, eq_refl r.author_id)),
        ))

  watchers-Ensures :
      (ids : List String)
      → Ensures IsStored (add_watchers env r.thread_id (r.author_id ∷ ids)) (λ _. IsWatched)
  unfolding add_watchers
  watchers-Ensures ids = Ensures-bind _ _ watcher-Ensures λ _. Ensures-Keeps _ (
      add_watchers-Keeps
        (λ d w h. (
          h.0,
          any-append_old (λ (w : Watcher). w.thread_id == r.thread_id && w.actor_id == r.author_id)
              d.watchers w h.1,
        ))
        env r.thread_id ids)

  cursor-Ensures :
      Ensures IsWatched
        (upsert_thread_watch env r.author_id r.thread_id r.created_at)
        (λ _. IsReplied r)
  unfolding upsert_thread_watch
  cursor-Ensures = Ensures-bind _ _ (Ensures-Keeps _ (Keeps-now env)) λ at.
      Ensures-upsert env thread_watches _ _ _
        (λ d h old. record {
          stored = h.0;
          watched = h.1;
          read =
              find_map-rewrite (is_watch r.author_id r.thread_id) (λ w. w.last_read_at)
                (λ (w : ThreadWatch). record w { last_read_at = r.created_at; updated_at = at })
                r.created_at (λ x. refl) (λ x. refl) d.thread_watches old;
        })
        (λ d h new. record {
          stored = h.0;
          watched = h.1;
          read = ap (option_map (λ (w : ThreadWatch). w.last_read_at)) (
              find-append_new (is_watch r.author_id r.thread_id) d.thread_watches _ new
                (rw (eq_refl r.author_id, eq_refl r.thread_id)));
        })

  rest-Keeps :
      (ids : List String) → Keeps (IsReplied r) (ensure_watches env r.author_id r.thread_id ids)
  rest-Keeps ids =
      ensure_watches-Keeps
        (λ d w h. record {
          stored = h.stored;
          watched = h.watched;
          read =
              find_map-append (is_watch r.author_id r.thread_id) (λ w. w.last_read_at)
                d.thread_watches w h.read;
        })
        env r.author_id r.thread_id ids

  mentions-Keeps :
      Keeps (IsReplied r) (create_mentions env (some r.id) (some r.thread_id) r.author_id r.body)
  mentions-Keeps =
      create_mentions-Keeps env
        (λ d l h. record { stored = h.stored; watched = h.watched; read = h.read }) (some r.id)
        (some r.thread_id) r.author_id r.body

-- What of a reply the caller has chosen.
abbrev pub IsReplyOf : String → String → String → Reply → Type 0
IsReplyOf thread_id author_id body r =
    (r.thread_id ≡ thread_id) × (r.author_id ≡ author_id) × (r.body ≡ body)

insert_reply-Ensures :
    (env : Env) (thread_id author_id body : String) (ids : List String) (id : String)
    → Ensures
        (λ _. Unit)
        (insert_reply env thread_id author_id body ids id)
        (λ r d. IsReplyOf thread_id author_id body r.0 × IsReplied r.0 d)
unfolding insert_reply or_no_thread
insert_reply-Ensures env thread_id author_id body ids id =
    Ensures-bind _ _ (Ensures-Keeps _ (record { at = λ _ _. tt })) λ found.
      Ensures-bind _ _ (Ensures-Keeps _ (record { at = λ _ _. tt })) λ thread.
        Ensures-bind _ _ (Ensures-Keeps _ (Keeps-now env)) λ at.
          Ensures-bind _ _ (reply-Ensures env (reply at)) λ _.
            Ensures-bind _ _ (watchers-Ensures env (reply at) ids) λ _.
              Ensures-bind _ _ (cursor-Ensures env (reply at)) λ _.
                Ensures-bind _ _ (Ensures-Keeps _ (rest-Keeps env (reply at) ids)) λ _.
                  Ensures-bind _ _ (Ensures-Keeps _ (mentions-Keeps env (reply at)))
                    λ report. Ensures-pure _ (λ d h. ((refl, refl, refl), h))
  where
    reply : ℕ → Reply
    reply at = record {
      id = id;
      thread_id = thread_id;
      body = body;
      author_id = author_id;
      created_at = at;
    }

-- A reply that AddReply returns has the thread, author and body of the call, and its body is not
-- blank; it is in its table, its author watches the thread, and the author's cursor in the thread
-- stands at the reply, wherever it stood before.
pub add_reply-Replied :
    (env : Env) (thread_id author_id body : String) (ids : List String) (w : World)
    → Outcome
        (λ r d.
          IsReplyOf thread_id author_id body r.0
          × IsReplied r.0 d
          × ((trim_space body == "") ≡ false))
        (add_reply env thread_id author_id body ids w)
unfolding add_reply new_uuid ◌>>=◌
add_reply-Replied env thread_id author_id body ids w = elim (Bool-cases (trim_space body == "")) [
  | inl blank ↦ rw blank tt
  | inr full ↦ rw full (
      Outcome-mono (λ r d. IsReplyOf thread_id author_id body r.0 × IsReplied r.0 d) _ _
        (λ r d h. (h.0, h.1, refl))
        ((Ensures-transaction env _
            (insert_reply-Ensures env thread_id author_id body ids (env.fresh w.step))).at
          (tick w) tt))
]
