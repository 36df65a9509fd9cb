-- ===== src/Storage/CatchUp/Succeeds.antt =====
-- What a CatchUp that succeeds has done, when the driver may refuse statements.
use mcp_symposium.Prelude.{String, ◌≡◌, refl, ap, ◌∙◌, List, [], ◌∷◌}
use mcp_symposium.Models.{Reply, ThreadWatch, Mention}
use mcp_symposium.Engine.{Env, World, ok}
use mcp_symposium.Engine.Order.{Sorts}
use mcp_symposium.Engine.Transactions.{Works}
use mcp_symposium.Engine.Succeeds.{
  unrefused, Follows, Follows-same, Follows-bind, Follows-transaction, Follows-now, Follows-find,
  Follows-update,
}
use mcp_symposium.Storage.Schema.{thread_watches, mentions}
use mcp_symposium.Storage.CatchUp.{
  CatchUpResult, is_new, unread_of, advance, read_watches, mark_mentions, read_all, catch_up,
}
use mcp_symposium.Storage.CatchUp.Cursor.{all_unread}
use mcp_symposium.Storage.CatchUp.Twice.{
  IsQuiet, fresh_result, catch_up_lem, all_unread-quiet, select_quiet,
}

module _ (env : Env) where
  Follows-advance :
      (actor_id : String) (w : ThreadWatch) (rs : List Reply)
      → Follows (advance env actor_id w rs) (advance (unrefused env) actor_id w rs)
  unfolding advance
  Follows-advance actor_id w [] = Follows-same _
  Follows-advance actor_id w (r ∷ rs) =
      Follows-bind _ _ _ _ (Follows-now env)
        λ at. Follows-bind _ _ _ _ (Follows-update env thread_watches _ _) λ n. Follows-same _

  Follows-unread_of : (w : ThreadWatch) → Follows (unread_of env w) (unread_of (unrefused env) w)
  unfolding unread_of
  Follows-unread_of w = Follows-bind _ _ _ _ (Follows-find env _ _) λ found. Follows-same _

  Follows-read_watches :
      (actor_id : String) (ws : List ThreadWatch)
      → Follows (read_watches env actor_id ws) (read_watches (unrefused env) actor_id ws)
  unfolding read_watches
  Follows-read_watches actor_id [] = Follows-same _
  Follows-read_watches actor_id (w ∷ ws) = Follows-bind _ _ _ _ (Follows-unread_of w) λ unread.
      Follows-bind _ _ _ _ (Follows-advance actor_id w unread)
        λ _. Follows-bind _ _ _ _ (Follows-read_watches actor_id ws) λ rest. Follows-same _

  Follows-mark_mentions :
      (actor_id : String) (ms : List Mention)
      → Follows (mark_mentions env actor_id ms) (mark_mentions (unrefused env) actor_id ms)
  unfolding mark_mentions
  Follows-mark_mentions actor_id [] = Follows-same _
  Follows-mark_mentions actor_id (m ∷ ms) =
      Follows-bind _ _ _ _ (Follows-now env)
        λ at. Follows-bind _ _ _ _ (Follows-update env mentions _ _) λ n. Follows-same _

  Follows-catch_up :
      (actor_id : String) → Follows (catch_up env actor_id) (catch_up (unrefused env) actor_id)
  unfolding catch_up read_all
  Follows-catch_up actor_id = Follows-transaction env _ _ (
      Follows-bind _ _ _ _ (Follows-find env thread_watches _) λ ws.
        Follows-bind _ _ _ _ (Follows-read_watches actor_id ws) λ unread.
          Follows-bind _ _ _ _ (Follows-find env mentions _)
            λ new. Follows-bind _ _ _ _ (Follows-mark_mentions actor_id new) λ _. Follows-same _)

  -- Whatever the driver may refuse: when CatchUp succeeds, it has returned all that was new, and
  -- nothing is new any more.
  pub catch_up-succeeds :
      (sorts : Sorts env) (actor_id : String) (w : World) (r : CatchUpResult)
      → (catch_up env actor_id w).0 ≡ ok r
      → (r ≡ fresh_result env actor_id w.db) × IsQuiet actor_id (catch_up env actor_id w).1.db
  unfolding all_unread
  catch_up-succeeds sorts actor_id w r done =
      let sorts' : Sorts (unrefused env) = record {
        rearranges = sorts.rearranges;
        ascends = sorts.ascends;
      } in
      let same = (Follows-catch_up actor_id).at w done in
      let (out, quiet) = catch_up_lem (unrefused env) (λ n. refl) sorts' actor_id w in
      (cc (done, out, ap (λ x. x.0) same), rw same at quiet)

-- A CatchUp where nothing is new returns nothing.
pub catch_up-quiet :
    (env : Env) (works : Works env) (sorts : Sorts env) (actor_id : String) (w : World)
    → IsQuiet actor_id w.db
    → (catch_up env actor_id w).0 ≡ ok (record { unread_replies = []; new_mentions = [] })
catch_up-quiet env works sorts actor_id w quiet =
    (catch_up_lem env works sorts actor_id w).0
    ∙ rw (
      all_unread-quiet env works sorts actor_id w.db.replies w.db.thread_watches quiet.0,
      select_quiet (is_new actor_id) w.db.mentions quiet.1,
    )
