-- ===== src/Storage/Thread/Watching.antt =====
-- What WatchThread and UnwatchThread have written when they return.
use mcp_symposium.Prelude.{
  ℕ, String, true, false, not, ◌≡◌, refl, sym, ap, ◌∙◌, ◌&&◌, Option, none, some, List, [], ◌∷◌,
  ◌++◌, arith, ◌==◌, find, any, select, eq_refl, eq_iff, get_or,
}
use mcp_symposium.Prelude.Rows.{option_map, find-append_new, any-append, any_mono}
use mcp_symposium.Prelude.Cases.{find-any, find-any-false, any_imp, any-select-not}
use mcp_symposium.Models.{ThreadWatch, Watcher, Db}
use mcp_symposium.Engine.{Env, World}
use mcp_symposium.Engine.Keeps.{Keeps-now}
use mcp_symposium.Engine.Tables.{create_or_ignore}
use mcp_symposium.Engine.Ensures.{
  Ensures, Outcome, Ensures-bind, Ensures-Keeps, Ensures-transaction, Ensures-pure,
  Ensures-create_or_ignore, Ensures-delete_where, Ensures-first_where, Ensures-attempt,
}
use mcp_symposium.Storage.Schema.{threads, watchers, thread_watches}
use mcp_symposium.Storage.Thread.{is_watch, watch_thread, unwatch_thread, ensure_thread_watch}
use mcp_symposium.Storage.Thread.Created.{cursor, watches}
use mcp_symposium.Storage.Thread.Status.{Ensures-or_no_thread}

module _ (env : Env) (actor_id thread_id : String) where
  -- The actor watches the thread; `o` is how much was read of it before.
  abbrev pub IsWatching : Option ℕ → Db → Type 0
  IsWatching o d =
      (cursor actor_id thread_id d ≡ some (get_or o 0)) × (watches actor_id thread_id d ≡ true)

  abbrev own_watcher : Watcher
  own_watcher = record { thread_id = thread_id; actor_id = actor_id }

  watcher-Ensures :
      (o : Option ℕ)
      → Ensures
          (λ d. cursor actor_id thread_id d ≡ o)
          (create_or_ignore env watchers own_watcher)
          (λ _ d. (cursor actor_id thread_id d ≡ o) × (watches actor_id thread_id d ≡ true))
  watcher-Ensures o =
      Ensures-create_or_ignore env watchers own_watcher
        (λ d h clash. (
          h,
          any_imp (λ (w : Watcher). w.thread_id == thread_id && w.actor_id == actor_id)
              (watchers.clash own_watcher)
              (λ x e. ground (
                arith,
                eq_iff x.thread_id thread_id,
                eq_iff x.actor_id actor_id,
                eq_iff thread_id x.thread_id,
                eq_iff actor_id x.actor_id,
              ))
              d.watchers clash,
        ))
        (λ d h _. (
          h,
          any-append (λ (w : Watcher). w.thread_id == thread_id && w.actor_id == actor_id)
              d.watchers own_watcher (rw (eq_refl thread_id, eq_refl actor_id)),
        ))

  kept_cursor :
      (o : Option ℕ) (ws : List ThreadWatch)
      → option_map (λ w. w.last_read_at) (find (is_watch actor_id thread_id) ws) ≡ o
      → any (is_watch actor_id thread_id) ws ≡ true
      → option_map (λ w. w.last_read_at) (find (is_watch actor_id thread_id) ws) ≡ some (get_or o 0)
  kept_cursor none ws h found =
      let (w, here, same) = find-any (is_watch actor_id thread_id) ws found in absurd (cc)
  kept_cursor (some t) ws h found = h

  cursor-Ensures :
      (o : Option ℕ)
      → Ensures
          (λ d. (cursor actor_id thread_id d ≡ o) × (watches actor_id thread_id d ≡ true))
          (ensure_thread_watch env actor_id thread_id)
          (λ _. IsWatching o)
  unfolding ensure_thread_watch
  cursor-Ensures o = Ensures-bind _ _ (Ensures-Keeps _ (Keeps-now env)) λ at.
      Ensures-bind _ _
        (Ensures-create_or_ignore env thread_watches (own_watch at) {Q = IsWatching o}
          (λ d h clash. (
            kept_cursor o d.thread_watches h.0 (
                any_imp (is_watch actor_id thread_id) (thread_watches.clash (own_watch at))
                  (λ x e. ground (
                    arith,
                    eq_iff x.thread_id thread_id,
                    eq_iff x.actor_id actor_id,
                    eq_iff thread_id x.thread_id,
                    eq_iff actor_id x.actor_id,
                  ))
                  d.thread_watches clash),
            h.1,
          ))
          (λ d h fresh. (
            new_cursor at d h.0 (
                any_mono (thread_watches.clash (own_watch at)) (is_watch actor_id thread_id)
                  (λ x e. ground (
                    arith,
                    eq_iff x.thread_id thread_id,
                    eq_iff x.actor_id actor_id,
                    eq_refl thread_id,
                    eq_refl actor_id,
                  ))
                  d.thread_watches fresh),
            h.1,
          )))
        λ _. Ensures-pure tt (λ d h. h)
    where
      own_watch : ℕ → ThreadWatch
      own_watch at = record {
        actor_id = actor_id;
        thread_id = thread_id;
        last_read_at = 0;
        updated_at = at;
      }

      new_cursor :
          (at : ℕ) (d : Db)
          → cursor actor_id thread_id d ≡ o
          → any (is_watch actor_id thread_id) d.thread_watches ≡ false
          → cursor actor_id thread_id
              (record d { thread_watches = d.thread_watches ++ own_watch at ∷ [] })
            ≡ some (get_or o 0)
      new_cursor at d h fresh =
          ap (option_map (λ (w : ThreadWatch). w.last_read_at)) (
            find-append_new (is_watch actor_id thread_id) d.thread_watches (own_watch at) fresh
              (rw (eq_refl actor_id, eq_refl thread_id)))
          ∙ rw
              (ap (λ u. get_or u 0)
                (sym h
                  ∙ ap (option_map (λ (w : ThreadWatch). w.last_read_at))
                      (find-any-false (is_watch actor_id thread_id) d.thread_watches fresh)))
              refl

  -- After WatchThread the actor watches the thread; a cursor that the actor had stays where it is,
  -- and a new one stands at the zero time, so that the whole thread is unread.
  pub watch_thread-IsWatching :
      (w : World)
      → Outcome
          (λ _. IsWatching (cursor actor_id thread_id w.db))
          (watch_thread env actor_id thread_id w)
  unfolding watch_thread
  watch_thread-IsWatching w =
      (Ensures-transaction env _ (
          Ensures-bind _ _
            (Ensures-attempt _ (Ensures-first_where env threads (λ t. t.id == thread_id)))
            λ found.
              Ensures-bind _ _ (Ensures-or_no_thread thread_id found (λ t d h. h.0)) λ thread.
                Ensures-bind _ _ (watcher-Ensures (cursor actor_id thread_id w.db))
                  λ _. cursor-Ensures (cursor actor_id thread_id w.db))).at
        w refl

  -- After UnwatchThread the actor does not watch the thread and has no cursor in it.
  pub unwatch_thread_lem :
      (w : World)
      → Outcome
          (λ _ d. (watches actor_id thread_id d ≡ false) × (cursor actor_id thread_id d ≡ none))
          (unwatch_thread env actor_id thread_id w)
  unfolding unwatch_thread
  unwatch_thread_lem w =
      (Ensures-transaction {P = λ _. Unit} env _ (
          Ensures-bind _ _
            (Ensures-delete_where env watchers _ {Q = λ d. watches actor_id thread_id d ≡ false}
              (λ d h.
                any-select-not (λ (x : Watcher). x.thread_id == thread_id && x.actor_id == actor_id)
                  d.watchers))
            λ _. Ensures-delete_where env thread_watches _ (λ d h. (
              h,
              ap (option_map (λ (x : ThreadWatch). x.last_read_at)) (deleted d.thread_watches),
            )))).at
        w tt
    where
      deleted :
          (ws : List ThreadWatch)
          → find
              (is_watch actor_id thread_id)
              (select (λ x. not (x.thread_id == thread_id && x.actor_id == actor_id)) ws)
            ≡ none
      deleted [] = refl
      deleted (x ∷ xs) = ground (arith, deleted xs)
