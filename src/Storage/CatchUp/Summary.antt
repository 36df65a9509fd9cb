-- ===== src/Storage/CatchUp/Summary.antt =====
-- GetCatchUpSummary counts what CatchUp would return, and changes nothing.
use mathlib.Core.List.{Perm, Permᴰ}
use mathlib.Core.Logic.{∥∥₁_elim}
use native.Mathlib.Nat.{ℕ_set}
use mcp_symposium.Prelude.{
  ℕ, suc, String, ◌≡◌, refl, ap, ◌∙◌, List, [], ◌∷◌, select, count, length, length-append,
  length-select,
}
use mcp_symposium.Models.{Reply, ThreadWatch, Db}
use mcp_symposium.Engine.{Env, World, tick, ok, pure, ◌>>=◌}
use mcp_symposium.Engine.Runs.{bind_ok, read_ok}
use mcp_symposium.Engine.Order.{Sorts}
use mcp_symposium.Engine.Keeps.{Keeps, keeps_rules}
use mcp_symposium.Engine.Tables.{find_where, count_where}
use mcp_symposium.Engine.Transactions.{Works}
use mcp_symposium.Storage.CatchUp.{
  CatchUpSummary, is_unread, is_new, is_unseen, catch_up, count_watches, get_catch_up_summary,
  count_unseen_handoff_alerts,
}
use mcp_symposium.Storage.CatchUp.Cursor.{all_unread}
use mcp_symposium.Storage.CatchUp.Twice.{watches_of, catch_up_lem, fresh_result}

length-permᴰ : {A : Type 0} {xs ys : List A} → Permᴰ xs ys → length xs ≡ length ys
length-permᴰ Permᴰ.nil = refl
length-permᴰ (Permᴰ.cons e d) = ap suc (length-permᴰ d)
length-permᴰ (Permᴰ.swap e f) = refl
length-permᴰ (Permᴰ.trans d e) = length-permᴰ d ∙ length-permᴰ e

length-perm : {A : Type 0} {xs ys : List A} → Perm xs ys → length xs ≡ length ys
length-perm h = ∥∥₁_elim h (ℕ_set _ _) length-permᴰ

module _ (env : Env) (works : Works env) (sorts : Sorts env) where
  count_watches_lem :
      (ws : List ThreadWatch) (s : World)
      → (n : ℕ) × (count_watches env ws s
          ≡ (ok (length (all_unread env s.db.replies ws)), record s { step = n }))
  unfolding count_watches all_unread ◌>>=◌ count_where
  count_watches_lem [] s = (s.step, refl)
  count_watches_lem (w ∷ ws) s =
      let (n, rest) = count_watches_lem ws (tick s) in
      (
        n,
        rw (works s.step, rest)
            (rw (
              length-append
                  (env.sort_asc (λ (r : Reply). r.created_at) (select (is_unread w) s.db.replies))
                  (all_unread env s.db.replies ws),
              length-perm (
                  sorts.rearranges (λ (r : Reply). r.created_at)
                    (select (is_unread w) s.db.replies)),
              length-select (is_unread w) s.db.replies,
            )),
      )

  -- While the driver works, the summary counts exactly the replies and mentions that CatchUp would
  -- return in the same state.
  pub summary-catch_up :
      (actor_id : String) (w : World)
      → let d = fresh_result env actor_id w.db in
        ((catch_up env actor_id w).0 ≡ ok d)
        × ((get_catch_up_summary env actor_id w).0
            ≡ ok (record {
              unread_reply_count = length d.unread_replies;
              unseen_mention_count = length d.new_mentions;
              unseen_handoff_alert_count = count (is_unseen actor_id) w.db.alerts;
            }))
  unfolding get_catch_up_summary ◌>>=◌ count_where find_where
  summary-catch_up actor_id w = (
    (catch_up_lem env works sorts actor_id w).0,
    let (n, counted) = count_watches_lem (watches_of actor_id w.db) (tick w) in
        rw (works w.step, counted, works n, works (suc n))
          (rw (length-select (is_new actor_id) w.db.mentions)),
  )

-- While the driver works there is a summary.
module _ (env : Env) (works : Works env) where
  count_watches-returns :
      (ws : List ThreadWatch) (w : World)
      → (n : ℕ) × (w' : World) × (count_watches env ws w ≡ (ok n, w'))
  unfolding count_watches count_where pure
  count_watches-returns [] w = (0, w, refl)
  count_watches-returns (t ∷ ts) w =
      let (n, w', rest) = count_watches-returns ts (tick w) in
      (
        _,
        w',
        bind_ok _ _ w (count (is_unread t) w.db.replies) (tick w)
              (read_ok env (λ d. count (is_unread t) d.replies) w works)
            ∙ bind_ok _ _ (tick w) n w' rest,
      )

  pub summary-returns :
      (actor_id : String) (w : World)
      → (s : CatchUpSummary) × (w' : World) × (get_catch_up_summary env actor_id w ≡ (ok s, w'))
  unfolding get_catch_up_summary count_unseen_handoff_alerts find_where count_where pure
  summary-returns actor_id w =
      let (n, w', counted) = count_watches-returns (watches_of actor_id w.db) (tick w) in
      (
        _,
        tick (tick w'),
        bind_ok _ _ w (watches_of actor_id w.db) (tick w)
              (read_ok env (watches_of actor_id) w works)
            ∙ bind_ok _ _ (tick w) n w' counted
            ∙ bind_ok _ _ w' (count (is_new actor_id) w'.db.mentions) (tick w')
                (read_ok env (λ d. count (is_new actor_id) d.mentions) w' works)
            ∙ bind_ok _ _ (tick w') (count (is_unseen actor_id) w'.db.alerts) (tick (tick w'))
                (read_ok env (λ d. count (is_unseen actor_id) d.alerts) (tick w') works),
      )

count_watches-Keeps :
    {P : Db → Type 0} (env : Env) (ws : List ThreadWatch) → Keeps P (count_watches env ws)
unfolding count_watches
count_watches-Keeps env [] = search keeps_rules
count_watches-Keeps {P} env (w ∷ ws) =
    let rest : Keeps P (count_watches env ws) = count_watches-Keeps {P = P} env ws in
    search keeps_rules depth 7

-- The summary changes no table, whatever the driver does.
pub summary-Keeps :
    {P : Db → Type 0} (env : Env) (actor_id : String) → Keeps P (get_catch_up_summary env actor_id)
unfolding get_catch_up_summary count_unseen_handoff_alerts
summary-Keeps env actor_id = search (keeps_rules, count_watches-Keeps)

-- Asking for the summary changes no table, whatever the driver does.
db-summary :
    (env : Env) (actor_id : String) (w : World) → (get_catch_up_summary env actor_id w).1.db ≡ w.db
db-summary env actor_id w = (summary-Keeps {P = λ d. d ≡ w.db} env actor_id).at w refl
