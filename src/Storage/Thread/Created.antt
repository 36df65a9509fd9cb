-- ===== src/Storage/Thread/Created.antt =====
-- What CreateThreadExt has written when it returns a thread.
use mcp_symposium.Prelude.{
  ℕ, String, Bool, true, false, ◌≡◌, refl, sym, ap, ◌∙◌, ◌&&◌, Option, none, some, List, [], ◌∷◌,
  ◌++◌, inl, inr, arith, ◌==◌, trim_space, Bool-cases, find, any, eq_refl, eq_iff,
}
use mcp_symposium.Prelude.Rows.{option_map, find-append_new, any-append, any_mono}
use mcp_symposium.Models.{Thread, ThreadWatch, Watcher, Db}
use mcp_symposium.Engine.{Env, World, tick, ◌>>=◌, new_uuid, transaction}
use mcp_symposium.Engine.Keeps.{Keeps, Keeps-now}
use mcp_symposium.Engine.Tables.{create}
use mcp_symposium.Engine.Ensures.{
  Ensures, Outcome, Outcome-mono, Ensures-bind, Ensures-Keeps, Ensures-transaction, Ensures-pure,
  Ensures-create,
}
use mcp_symposium.Storage.Schema.{threads, watchers, thread_watches}
use mcp_symposium.Storage.Mention.{create_mentions}
use mcp_symposium.Storage.Mention.Frame.{create_mentions-Keeps}
use mcp_symposium.Storage.Thread.{
  is_watch, attach_tags, create_thread_ext, insert_thread, draft_thread,
}
use mcp_symposium.Storage.Thread.Frame.{attach_tags-Keeps}

-- the thread with this id
abbrev pub thread_row : String → Db → Option Thread
thread_row id d = find (λ t. t.id == id) d.threads

-- how far the actor has read the thread
abbrev pub cursor : String → String → Db → Option ℕ
cursor actor_id thread_id d =
    option_map (λ w. w.last_read_at) (find (is_watch actor_id thread_id) d.thread_watches)

abbrev pub watches : String → String → Db → Bool
watches actor_id thread_id d =
    any (λ w. w.thread_id == thread_id && w.actor_id == actor_id) d.watchers

-- The thread is in its table, and its author watches it and has read it up to its creation.
pub record IsCreated (author_id : String) (t : Thread) (d : Db) : Type 0 where
  pub stored : thread_row t.id d ≡ some t
  pub watched : watches author_id t.id d ≡ true
  pub read : cursor author_id t.id d ≡ some t.created_at

thread_stored :
    (t : Thread) (ts : List Thread)
    → any (threads.clash t) ts ≡ false
    → find (λ x. x.id == t.id) (ts ++ t ∷ []) ≡ some t
thread_stored t ts fresh =
    find-append_new (λ (x : Thread). x.id == t.id) ts t
      (any_mono (threads.clash t) (λ x. x.id == t.id)
        (λ x e. ground (arith, eq_iff x.id t.id, eq_refl t.id)) ts fresh)
      (eq_refl t.id)

module _ (env : Env) (author_id : String) (draft : Thread) (tag_names : List String) (at : ℕ) where
  abbrev dated : Thread
  dated = record draft { created_at = at; updated_at = at }

  abbrev own_watch : ℕ → ThreadWatch
  own_watch at' = record {
    actor_id = author_id;
    thread_id = draft.id;
    last_read_at = at;
    updated_at = at';
  }

  is_own : (at' : ℕ) → is_watch author_id draft.id (own_watch at') ≡ true
  is_own at' = rw (eq_refl author_id, eq_refl draft.id)

  own_read :
      (at' : ℕ) (ws : List ThreadWatch)
      → any (thread_watches.clash (own_watch at')) ws ≡ false
      → find (is_watch author_id draft.id) (ws ++ own_watch at' ∷ []) ≡ some (own_watch at')
  own_read at' ws fresh =
      find-append_new (is_watch author_id draft.id) ws (own_watch at')
        (any_mono (thread_watches.clash (own_watch at')) (is_watch author_id draft.id)
          (λ x e. ground (
            arith,
            eq_iff x.actor_id author_id,
            eq_iff x.thread_id draft.id,
            eq_refl author_id,
            eq_refl draft.id,
          ))
          ws fresh)
        (is_own at')

  -- stored, and watched
  abbrev IsWatched : Db → Type 0
  IsWatched d = (thread_row draft.id d ≡ some dated) × (watches author_id draft.id d ≡ true)

  -- neither tags nor mentions touch what was written
  tags-Keeps : Keeps (IsCreated author_id dated) (attach_tags env draft.id tag_names)
  tags-Keeps =
      attach_tags-Keeps (λ d l h. record { stored = h.stored; watched = h.watched; read = h.read })
        (λ d l h. record { stored = h.stored; watched = h.watched; read = h.read }) env draft.id
        tag_names

  mentions-Keeps :
      Keeps
        (IsCreated author_id dated)
        (create_mentions env none (some draft.id) author_id draft.body)
  mentions-Keeps =
      create_mentions-Keeps env
        (λ d l h. record { stored = h.stored; watched = h.watched; read = h.read }) none
        (some draft.id) author_id draft.body

  insert-Ensures :
      Ensures (λ _. Unit) (create env threads dated) (λ _ d. thread_row draft.id d ≡ some dated)
  insert-Ensures =
      Ensures-create env threads dated (λ d _ fresh. thread_stored dated d.threads fresh)

  watch-Ensures :
      Ensures
        (λ d. thread_row draft.id d ≡ some dated)
        (create env watchers (record { thread_id = draft.id; actor_id = author_id }))
        (λ _. IsWatched)
  watch-Ensures = Ensures-create env watchers _ λ d h _. (
    h,
    any-append (λ (w : Watcher). w.thread_id == draft.id && w.actor_id == author_id) d.watchers
        (record { thread_id = draft.id; actor_id = author_id })
        (rw (eq_refl draft.id, eq_refl author_id)),
  )

  read-Ensures :
      (at' : ℕ)
      → Ensures IsWatched
          (create env thread_watches (own_watch at'))
          (λ _. IsCreated author_id dated)
  read-Ensures at' = Ensures-create env thread_watches (own_watch at') λ d h fresh. record {
    stored = h.0;
    watched = h.1;
    read = rw (own_read at' d.thread_watches fresh);
  }

-- The thread of the draft, with one time for its creation and its last update.
abbrev pub IsThreadOf : Thread → Thread → Type 0
IsThreadOf draft t = t ≡ record draft { created_at = t.created_at; updated_at = t.created_at }

module _ (env : Env) (author_id : String) (draft : Thread) (tag_names : List String) where
  insert_thread-Ensures :
      Ensures
        (λ _. Unit)
        (insert_thread env author_id draft tag_names)
        (λ r d. IsThreadOf draft r.0 × IsCreated author_id r.0 d)
  unfolding insert_thread
  insert_thread-Ensures = Ensures-bind _ _ (Ensures-Keeps _ (Keeps-now env)) λ at.
      Ensures-bind _ _ (insert-Ensures env author_id draft tag_names at) λ _.
        Ensures-bind _ _ (watch-Ensures env author_id draft tag_names at) λ _.
          Ensures-bind _ _ (Ensures-Keeps _ (Keeps-now env)) λ at'.
            Ensures-bind _ _ (read-Ensures env author_id draft tag_names at at') λ _.
              Ensures-bind _ _ (Ensures-Keeps _ (tags-Keeps env author_id draft tag_names at)) λ _.
                Ensures-bind _ _ (Ensures-Keeps _ (mentions-Keeps env author_id draft tag_names at))
                  λ report. Ensures-pure _ (λ d h. (refl, h))

-- A thread that CreateThreadExt returns has the title, body, author and external id of the call and
-- is open; it is in its table, its author watches it and has read it up to its creation; and neither
-- its title nor its body is blank.
pub create_thread-Created :
    (env : Env) (author_id title body : String) (tag_names : List String)
    (external_id : Option String) (w : World)
    → Outcome
        (λ r d.
          IsThreadOf (draft_thread r.0.id author_id title body external_id) r.0
          × IsCreated author_id r.0 d
          × ((trim_space title == "") ≡ false)
          × ((trim_space body == "") ≡ false))
        (create_thread_ext env author_id title body tag_names external_id w)
unfolding create_thread_ext new_uuid ◌>>=◌
create_thread-Created env author_id title body tag_names external_id w =
    elim (Bool-cases (trim_space title == "")) [
      | inl blank ↦ rw blank tt
      | inr titled ↦ elim (Bool-cases (trim_space body == "")) [
        | inl blank ↦ rw (titled, blank) tt
        | inr full ↦
            let draft = draft_thread (env.fresh w.step) author_id title body external_id in
            rw (titled, full)
              (Outcome-mono (λ r d. IsThreadOf draft r.0 × IsCreated author_id r.0 d)
                (λ r d.
                  IsThreadOf (draft_thread r.0.id author_id title body external_id) r.0
                  × IsCreated author_id r.0 d
                  × (false ≡ false)
                  × (false ≡ false))
                (transaction env (insert_thread env author_id draft tag_names) (tick w))
                (λ r d h. (
                  h.0
                      ∙ ap
                          (λ i. record (draft_thread i author_id title body external_id) {
                            created_at = r.0.created_at;
                            updated_at = r.0.created_at;
                          })
                          (sym (ap (λ (t : Thread). t.id) h.0)),
                  h.1,
                  refl,
                  refl,
                ))
                ((Ensures-transaction env _
                    (insert_thread-Ensures env author_id draft tag_names)).at
                  (tick w) tt))
      ]
    ]
