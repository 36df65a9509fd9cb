-- ===== src/Storage/Thread/Status.antt =====
-- What ResolveThread and ReopenThread have written when they return.
use mcp_symposium.Prelude.{
  ℕ, String, ◌≡◌, refl, sym, ◌∙◌, Option, some, List, arith, ◌==◌, find, rewrite, eq_iff,
}
use mcp_symposium.Prelude.Rows.{find-rewrite}
use mcp_symposium.Models.{Thread, Db}
use mcp_symposium.Engine.{Env, World, Result, ok, err, pure, fail}
use mcp_symposium.Engine.Keeps.{Keeps-now}
use mcp_symposium.Engine.Ensures.{
  Ensures, Outcome, Ensures-bind, Ensures-Keeps, Ensures-pure, Ensures-first_where, Ensures-attempt,
  Ensures-update_where,
}
use mcp_symposium.Storage.Schema.{threads}
use mcp_symposium.Storage.Thread.{set_thread_status, resolve_thread, reopen_thread, or_no_thread}
use mcp_symposium.Storage.Thread.Created.{thread_row}

-- a lookup that succeeded goes on with what it found
pub Ensures-or_no_thread :
    {A : Type 0} {P Q : A → Db → Type 0} (thread_id : String) (r : Result A)
    → ((a : A) (d : Db) → P a d → Q a d)
    → Ensures (λ d. Outcome P (r, record { db = d; step = 0 })) (or_no_thread thread_id r) Q
unfolding or_no_thread pure fail
Ensures-or_no_thread thread_id (ok a) q = record { at = λ w h. q a w.db h }
Ensures-or_no_thread thread_id (err e) q = record { at = λ w h. tt }

-- The thread has this status, and is otherwise the one that was there, but for its last update.
abbrev pub IsNow : String → String → Option Thread → Thread → Db → Type 0
IsNow thread_id status old t d =
    (thread_row thread_id d ≡ some t)
    × ((o : Thread) × (old ≡ some o)
        × (t ≡ record o { status = status; updated_at = t.updated_at }))

module _ (env : Env) (thread_id status : String) where
  set_row :
      (ts : List Thread) (t : Thread) (at : ℕ)
      → find (λ x. x.id == thread_id) ts ≡ some t
      → find
          (λ x. x.id == thread_id)
          (rewrite (λ x. x.id == t.id) (λ x. record x { status = status; updated_at = at }) ts)
        ≡ some (record t { status = status; updated_at = at })
  set_row ts t at here =
      find-rewrite (λ (x : Thread). x.id == t.id)
        (λ x. record x { status = status; updated_at = at }) (λ x. x.id == thread_id) (λ x. refl) ts
      ∙ rw here (ground (arith, eq_iff t.id t.id))

  status-Ensures :
      (old : Option Thread)
      → Ensures
          (λ d. thread_row thread_id d ≡ old)
          (set_thread_status env thread_id status)
          (IsNow thread_id status old)
  unfolding set_thread_status
  status-Ensures old =
      Ensures-bind _ _
        (Ensures-attempt _ (Ensures-first_where env threads (λ t. t.id == thread_id)))
        λ found. Ensures-bind _ _ (Ensures-or_no_thread thread_id found (λ t d h. h)) λ thread.
          Ensures-bind _ _ (Ensures-Keeps _ (Keeps-now env)) λ at.
            Ensures-bind _ _
              (Ensures-update_where env threads _ _
                {Q = IsNow thread_id status old
                  (record thread { status = status; updated_at = at })}
                (λ d h. (set_row d.threads thread at h.1, (thread, sym h.0 ∙ h.1, refl))))
              λ _. Ensures-pure _ (λ d h. h)

-- A thread that ResolveThread returns is the one with the id of the call, resolved: its row is the
-- thread returned, and only its status and last update have changed. So for ReopenThread, and open.
pub resolve_thread-IsNow :
    (env : Env) (thread_id : String) (w : World)
    → Outcome
        (IsNow thread_id "resolved" (thread_row thread_id w.db))
        (resolve_thread env thread_id w)
      × Outcome (IsNow thread_id "open" (thread_row thread_id w.db)) (reopen_thread env thread_id w)
unfolding resolve_thread reopen_thread
resolve_thread-IsNow env thread_id w = (
  (status-Ensures env thread_id "resolved" (thread_row thread_id w.db)).at w refl,
  (status-Ensures env thread_id "open" (thread_row thread_id w.db)).at w refl,
)
