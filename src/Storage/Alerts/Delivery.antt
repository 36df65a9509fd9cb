-- ===== src/Storage/Alerts/Delivery.antt =====
-- Alerts reach their actor once, and a bundle that was published is the one that is read.
use mcp_symposium.Prelude.{
  ℕ, suc, String, Bool, true, false, ◌≡◌, refl, sym, ap, ◌∙◌, some, List, [], ◌∷◌, ◌++◌, inl, inr,
  arith, Bool-cases, all, count, select, rewrite, eq_refl,
}
use mcp_symposium.Models.{HandoffAlert, Db}
use mcp_symposium.Engine.{Env, World, tick, ok, pure, ◌>>=◌, now}
use mcp_symposium.Engine.Keeps.{Keeps-now}
use mcp_symposium.Engine.Order.{Sorts, all-perm}
use mcp_symposium.Engine.Tables.{find_where, update_where, count_where}
use mcp_symposium.Engine.Ensures.{Outcome, Ensures-bind, Ensures-Keeps, Ensures-create}
use mcp_symposium.Engine.Transactions.{Works, transaction-ok}
use mcp_symposium.Storage.Schema.{alerts}
use mcp_symposium.Storage.CatchUp.{is_unseen, count_unseen_handoff_alerts}
use mcp_symposium.Storage.Alerts.{
  create_handoff_alert, mark_alerts, take_alerts, unseen_handoff_alerts,
}

none_unseen :
    (actor_id : String) (t : ℕ) (ls : List HandoffAlert)
    → count
        (is_unseen actor_id)
        (rewrite (is_unseen actor_id) (λ b. record b { seen_at = some t }) ls)
      ≡ 0
none_unseen actor_id t [] = refl
none_unseen actor_id t (a ∷ ls) = elim (Bool-cases (is_unseen actor_id a)) [
  | inl hit ↦ rw hit (ground (arith, none_unseen actor_id t ls))
  | inr miss ↦ rw (miss, miss) (none_unseen actor_id t ls)
]

pub count-append :
    (p : HandoffAlert → Bool) (ls : List HandoffAlert) (a : HandoffAlert)
    → p a ≡ true
    → count p (ls ++ a ∷ []) ≡ suc (count p ls)
count-append p [] a h = rw h refl
count-append p (b ∷ bs) a h = ground (arith, count-append p bs a h)

-- When an alert was recorded without an error, the actor it is for has one more unseen.
pub count-create_handoff_alert :
    (env : Env) (id actor_id secret_id kind by_actor_id : String) (w : World)
    → Outcome
        (λ _ d. count (is_unseen actor_id) d.alerts ≡ suc (count (is_unseen actor_id) w.db.alerts))
        (create_handoff_alert env id actor_id secret_id kind by_actor_id w)
unfolding create_handoff_alert
count-create_handoff_alert env id actor_id secret_id kind by_actor_id w =
    (Ensures-bind {P = λ d. d ≡ w.db} _ _ (Ensures-Keeps _ (Keeps-now env)) λ at.
        Ensures-create env alerts _ (λ d h _.
          count-append (is_unseen actor_id) d.alerts _ (rw (eq_refl actor_id) refl) ∙ rw h refl)).at
      w refl

empty_select :
    (p : HandoffAlert → Bool) (ls : List HandoffAlert)
    → all (λ _. false) (select p ls) ≡ true
    → count p ls ≡ 0
empty_select p [] h = refl
empty_select p (a ∷ ls) h = elim (Bool-cases (p a)) [
  | inl hit ↦ absurd (cc (rw hit at h))
  | inr miss ↦ rw miss (empty_select p ls (rw miss at h))
]

module _ (env : Env) (works : Works env) (actor_id : String) where
  count_lem :
      (v : World)
      → (count_unseen_handoff_alerts env actor_id v).0 ≡ ok (count (is_unseen actor_id) v.db.alerts)
  unfolding count_unseen_handoff_alerts count_where
  count_lem v = rw (works v.step) refl

  -- marking leaves nothing unseen, if there was nothing to mark when nothing was found
  mark_lem :
      (ls : List HandoffAlert) (v : World)
      → (ls ≡ [] → count (is_unseen actor_id) v.db.alerts ≡ 0)
      → let r = mark_alerts env actor_id ls v in
        (r.0 ≡ ok tt) × (count (is_unseen actor_id) r.1.db.alerts ≡ 0)
  unfolding mark_alerts ◌>>=◌ update_where now pure
  mark_lem [] v quiet = (refl, quiet refl)
  mark_lem (a ∷ ls) v quiet =
      rw (works (suc v.step)) (refl, none_unseen actor_id (env.clock v.step) v.db.alerts)

  module _ (sorts : Sorts env) where
    abbrev pub unseen_of : Db → List HandoffAlert
    unseen_of d =
        env.sort_asc (λ (a : HandoffAlert). a.created_at) (select (is_unseen actor_id) d.alerts)

    take_lem :
        (v : World)
        → let r = take_alerts env actor_id v in
          (r.0 ≡ ok (unseen_of v.db)) × (count (is_unseen actor_id) r.1.db.alerts ≡ 0)
    unfolding take_alerts ◌>>=◌ find_where pure
    take_lem v =
        let found = select (is_unseen actor_id) v.db.alerts in
        let (done, quiet) = mark_lem (unseen_of v.db) (tick v) (λ e.
          empty_select (is_unseen actor_id) v.db.alerts (
            sym
              (all-perm (λ _. false) (sorts.rearranges (λ (a : HandoffAlert). a.created_at) found))
            ∙ ap (all (λ _. false)) e)) in
        rw (works v.step, done) (refl, quiet)

    -- While the driver works, UnseenHandoffAlerts returns all alerts that the actor has not seen,
    -- oldest first, and leaves none unseen: CountUnseenHandoffAlerts is 0 after it.
    pub unseen_handoff_alerts_lem :
        (w : World)
        → let r = unseen_handoff_alerts env actor_id w in
          (r.0 ≡ ok (unseen_of w.db)) × ((count_unseen_handoff_alerts env actor_id r.1).0 ≡ ok 0)
    unfolding unseen_handoff_alerts
    unseen_handoff_alerts_lem w =
        let (out, quiet) = take_lem (tick w) in
        rw (transaction-ok env works (take_alerts env actor_id) w out)
          (refl, count_lem (tick (take_alerts env actor_id (tick w)).1) ∙ ap ok quiet)
