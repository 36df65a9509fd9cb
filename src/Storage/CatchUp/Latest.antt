-- ===== src/Storage/CatchUp/Latest.antt =====
-- internal/storage/catchup_summary.go: LatestActivityAt.
use mcp_symposium.Prelude.{
  ℕ, String, Option, none, some, List, [], ◌∷◌, ◌==◌, ltb, select, if◌then◌else◌,
}
use mcp_symposium.Models.{ThreadWatch}
use mcp_symposium.Engine.{Env, ok, Tx, pure, statement, ◌>>=◌}
use mcp_symposium.Engine.Tables.{find_where}
use mcp_symposium.Storage.Schema.{thread_watches}
use mcp_symposium.Storage.CatchUp.{is_unread, is_new}

-- the later one, as the loop keeps it
abbrev pub later : Option ℕ → Option ℕ → Option ℕ
later latest none = latest
later none (some t) = some t
later (some l) (some t) = if ltb l t then some t else some l

-- ORDER BY created_at desc, First: the newest time, or none for ErrRecordNotFound
abbrev pub newest : {A : Type 0} → (A → ℕ) → List A → Option ℕ
newest key [] = none
newest key (x ∷ xs) = later (newest key xs) (some (key x))

module _ (env : Env) where
  unfoldable pub newest_unread : List ThreadWatch → Option ℕ → Tx (Option ℕ)
  newest_unread [] latest = pure latest
  newest_unread (w ∷ ws) latest = do
    found ← statement env λ d. ok (newest (λ r. r.created_at) (select (is_unread w) d.replies), d)
    newest_unread ws (later latest found)

  -- LatestActivityAt
  unfoldable pub latest_activity_at : String → Tx (Option ℕ)
  latest_activity_at actor_id = do
    watches ← find_where env thread_watches (λ w. w.actor_id == actor_id)
    latest ← newest_unread watches none
    found ←
        statement env λ d. ok (newest (λ m. m.created_at) (select (is_new actor_id) d.mentions), d)
    pure (later latest found)
