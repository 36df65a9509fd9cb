-- ===== src/Tools/Peek/Silent.antt =====
-- Peek leaves everything as it is, and tells what a CatchUp after it will deliver.
use mcp_symposium.Prelude.{
  ℕ, String, ◌≡◌, refl, ap, sym, ◌∙◌, Option, none, some, List, [], ◌∷◌, length, count,
}
use mcp_symposium.Models.{Actor, ThreadWatch, Db}
use mcp_symposium.Engine.{Env, World, ok, pure, statement}
use mcp_symposium.Engine.Order.{Sorts}
use mcp_symposium.Engine.Keeps.{
  Keeps, keeps_rules, Keeps-statement, Keeps-bind, Keeps-pure, Keeps-find_where,
}
use mcp_symposium.Storage.Schema.{thread_watches}
use mcp_symposium.Engine.Runs.{bind_ok}
use mcp_symposium.Engine.Transactions.{Works}
use mcp_symposium.Storage.CatchUp.{CatchUpSummary, is_unseen, catch_up, get_catch_up_summary}
use mcp_symposium.Storage.CatchUp.Latest.{later, newest_unread, latest_activity_at}
use mcp_symposium.Storage.CatchUp.Twice.{catch_up_lem, fresh_result}
use mcp_symposium.Storage.CatchUp.Summary.{summary-catch_up, summary-Keeps}
use mcp_symposium.Tools.WaitForActivity.Reports.{latest_activity_at-returns}
use mcp_symposium.Tools.Peek.{PeekOutput, peeked, peek_handler}

result_eq : {A B : Type 0} (p : A × B) {a : A} → p.0 ≡ a → p ≡ (a, p.1)
result_eq p e = ap (λ x. (x, p.1)) e

-- a statement that only reads
Keeps-read :
    {P : Db → Type 0} {A : Type 0} (env : Env) (f : Db → A)
    → Keeps P (statement env λ d. ok (f d, d))
Keeps-read env f = Keeps-statement env (λ d. ok (f d, d)) (λ d h. h)

newest_unread-Keeps :
    {P : Db → Type 0} (env : Env) (ws : List ThreadWatch) (latest : Option ℕ)
    → Keeps P (newest_unread env ws latest)
unfolding newest_unread
newest_unread-Keeps env [] latest = search keeps_rules
newest_unread-Keeps {P} env (w ∷ ws) latest =
    Keeps-bind _ _ (Keeps-read env _)
      λ found. newest_unread-Keeps {P = P} env ws (later latest found)

latest-Keeps :
    {P : Db → Type 0} (env : Env) (actor_id : String) → Keeps P (latest_activity_at env actor_id)
unfolding latest_activity_at
latest-Keeps env actor_id = Keeps-bind _ _ (Keeps-find_where env thread_watches _) λ watches.
    Keeps-bind _ _ (newest_unread-Keeps env watches none)
      λ latest. Keeps-bind _ _ (Keeps-read env _) λ found. Keeps-pure _

peek-Keeps :
    {P : Db → Type 0} (env : Env) (caller : Option Actor) → Keeps P (peek_handler env caller)
unfolding peek_handler
peek-Keeps env none = search keeps_rules
peek-Keeps env (some actor) = search (keeps_rules, summary-Keeps, latest-Keeps) depth 7

-- Peek changes no table, whoever calls it and whichever statements the driver refuses.
pub peek_handler-db :
    (env : Env) (caller : Option Actor) (w : World) → (peek_handler env caller w).1.db ≡ w.db
peek_handler-db env caller w = (peek-Keeps {P = λ d. d ≡ w.db} env caller).at w refl

module _ (env : Env) (works : Works env) (sorts : Sorts env) where
  -- While the driver works, Peek answers, and its counts are the numbers of replies and mentions
  -- that a CatchUp of the same actor right after it delivers, and the number of unseen alerts.
  pub peek_handler-catch_up :
      (actor : Actor) (w : World)
      → (out : PeekOutput) × (v : World) × (peek_handler env (some actor) w ≡ (ok out, v))
        × ((catch_up env actor.id v).0 ≡ ok (fresh_result env actor.id w.db))
        × (out.unread_reply_count ≡ length (fresh_result env actor.id w.db).unread_replies)
        × (out.unseen_mention_count ≡ length (fresh_result env actor.id w.db).new_mentions)
        × (out.unseen_handoff_alert_count ≡ count (is_unseen actor.id) w.db.alerts)
  unfolding peek_handler pure
  peek_handler-catch_up actor w =
      let actor_id = actor.id in
      let told : CatchUpSummary = record {
        unread_reply_count = length (fresh_result env actor_id w.db).unread_replies;
        unseen_mention_count = length (fresh_result env actor_id w.db).new_mentions;
        unseen_handoff_alert_count = count (is_unseen actor_id) w.db.alerts;
      } in
      let w' = (get_catch_up_summary env actor_id w).1 in
      let (delivered, counted) = summary-catch_up env works sorts actor_id w in
      let (max_at, v, latest) = latest_activity_at-returns env works actor_id w' in
      let ran : peek_handler env (some actor) w ≡ (ok (peeked actor_id told max_at), v) =
        bind_ok _ _ w told w' (result_eq _ counted) ∙ bind_ok _ _ w' max_at v latest in
      let kept : v.db ≡ w.db = ap (λ r. r.1.db) (sym ran) ∙ peek_handler-db env (some actor) w in
      (
        peeked actor_id told max_at,
        v,
        ran,
        (catch_up_lem env works sorts actor_id v).0
            ∙ ap (λ d. ok (fresh_result env actor_id d)) kept,
        refl,
        refl,
        refl,
      )
