-- ===== src/Tools/FetchSecret/Alarm.antt =====
-- A fetch by somebody else raises an alarm with the sender.
use mcp_symposium.Prelude.{
  ℕ, suc, String, false, ◌≡◌, refl, ap, ◌∙◌, some, [], ◌∷◌, inl, inr, ◌==◌, any, count, eq_refl,
  Bool-cases,
}
use mcp_symposium.Models.{Actor, SecretHandoff, HandoffAlert, Db}
use mcp_symposium.Engine.{
  Env, World, tick, secret_foreign_fetch, foreign_secret, Result, ok, pure, attempt, ◌>>=◌, now,
  new_uuid,
}
use mcp_symposium.Engine.Tables.{create}
use mcp_symposium.Engine.Transactions.{Works}
use mcp_symposium.Storage.CatchUp.{is_unseen}
use mcp_symposium.Storage.Handoff.{FetchReply, refused, fetch_secret_handoff, sweep_expired_secrets}
use mcp_symposium.Storage.Handoff.Spec.{row, HasKeys, fetch_spec, may_release, refusal}
use mcp_symposium.Storage.Handoff.Refine.{fetch-fetch_spec}
use mcp_symposium.Storage.Handoff.Sweep.{stale, swept, row-sweep, HasKeys-sweep}
use mcp_symposium.Storage.Handoff.Invariant.{fetch-Keeps, sweep-Keeps}
use mcp_symposium.Storage.Alerts.{create_handoff_alert}
use mcp_symposium.Storage.Alerts.Delivery.{count-append}
use mcp_symposium.Tools.FetchSecret.{denied, alarm, answer, fetch_secret_handler}

-- No identifier that is still to be drawn stands in the table of alerts.
abbrev pub IsFresh : Env → Db → Type 0
IsFresh env d = (n : ℕ) → any (λ (a : HandoffAlert). env.fresh n == a.id) d.alerts ≡ false

foreign_spec :
    (actor_id : String) (at : ℕ) (h : SecretHandoff)
    → (h.to_actor_id == actor_id) ≡ false
    → (fetch_spec actor_id at (some h)).0 ≡ refused (some h) secret_foreign_fetch
unfolding fetch_spec may_release refusal
foreign_spec actor_id at h other = rw other refl

module _ (env : Env) (works : Works env) (secret_id : String) where
  alarm_lem :
      (kind actor_id : String) (h : SecretHandoff) (v : World)
      → IsFresh env v.db
      → let r = alarm env secret_id kind actor_id (some h) v in
        (r.0 ≡ ok (h.from_actor_id ∷ []))
        × (count (is_unseen h.from_actor_id) r.1.db.alerts
            ≡ suc (count (is_unseen h.from_actor_id) v.db.alerts))
  unfolding alarm create_handoff_alert ◌>>=◌ new_uuid now create attempt pure
  alarm_lem kind actor_id h v fresh =
      rw (works (suc (suc v.step)), fresh v.step)
        (
          refl,
          count-append (is_unseen h.from_actor_id) v.db.alerts _
              (rw (eq_refl h.from_actor_id) refl),
        )

  module _ (actor : Actor) (h : SecretHandoff) (w : World) (keys : HasKeys w.db)
      (here : row secret_id w.db ≡ some h) (other : (h.to_actor_id == actor.id) ≡ false)
      (fresh : IsFresh env w.db) where
    abbrev swept_world : World
    swept_world = tick (sweep_expired_secrets env (env.clock w.step) (tick w)).1

    abbrev fetched_at : ℕ
    fetched_at = env.clock (sweep_expired_secrets env (env.clock w.step) (tick w)).1.step

    abbrev fetched : Result FetchReply × World
    fetched = fetch_secret_handoff env secret_id actor.id fetched_at swept_world

    same_alerts : fetched.1.db.alerts ≡ w.db.alerts
    same_alerts =
        (fetch-Keeps {P = λ d. d.alerts ≡ w.db.alerts} (λ p f u d e. e) (λ g d e _. e) env secret_id
            actor.id fetched_at).at
          swept_world
          ((sweep-Keeps {P = λ d. d.alerts ≡ w.db.alerts} (λ p f u d e. e) (λ g d e _. e) env
              (env.clock w.step)).at
            (tick w) refl)

    swept_other :
        (g : SecretHandoff) (t : ℕ)
        → ((swept t g).to_actor_id ≡ g.to_actor_id) × ((swept t g).from_actor_id ≡ g.from_actor_id)
    swept_other g t = elim (Bool-cases (stale t g)) [
      | inl hit ↦ rw hit (refl, refl)
      | inr miss ↦ rw miss (refl, refl)
    ]

    fetched_foreign :
        fetched.0 ≡ ok (refused (some (swept (env.clock w.step) h)) secret_foreign_fetch)
    fetched_foreign =
        (fetch-fetch_spec env works secret_id actor.id fetched_at swept_world
          (HasKeys-sweep env works (env.clock w.step) (tick w) keys)).0
        ∙ rw (row-sweep env works secret_id (env.clock w.step) (tick w), here)
            (ap ok (
              foreign_spec actor.id fetched_at (swept (env.clock w.step) h)
                (rw ((swept_other h (env.clock w.step)).0) other)))

    -- While the driver works, when the handoffs of the table have different identifiers (HasKeys)
    -- and uuid.NewString will draw none that an alert of the table has (IsFresh): whoever asks for a
    -- handoff that is there and is addressed to somebody else is denied it, the sender has one more
    -- unseen alert, and the hub is told to wake the sender.
    pub fetch_secret_handler_foreign :
        let r = fetch_secret_handler env (some actor) secret_id w in
        (r.0 ≡ ok (denied foreign_secret (h.from_actor_id ∷ [])))
        × (count (is_unseen h.from_actor_id) r.1.db.alerts
            ≡ suc (count (is_unseen h.from_actor_id) w.db.alerts))
    unfolding fetch_secret_handler answer ◌>>=◌ now attempt pure
    fetch_secret_handler_foreign =
        let from = (swept_other h (env.clock w.step)).1 in
        let (woken, more) =
          alarm_lem "foreign_fetch" actor.id (swept (env.clock w.step) h) fetched.1
            (λ n. rw same_alerts (fresh n)) in
        rw (fetched_foreign, woken, from) (refl, rw (from, same_alerts) at more)
