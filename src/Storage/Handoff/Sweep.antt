-- ===== src/Storage/Handoff/Sweep.antt =====
-- SweepExpiredSecrets, and what a later fetch sees of it.
use mcp_symposium.Prelude.{
  ℕ, ◌≤◌, ◌<◌, String, Bool, true, ◌≡◌, refl, ap, ◌&&◌, Option, none, some, List, [], ◌∷◌, inl, inr,
  ◌⊎◌, arith, ◌==◌, ◌/=◌, ltb, if◌then◌else◌, Bool-cases, Option-cases, is_none, rewrite, All,
}
use mcp_symposium.Prelude.Rows.{Keyed-rewrite, find-rewrite, option_map}
use mcp_symposium.Models.{SecretHandoff}
use mcp_symposium.Engine.{Env, World, tick, Error, Result, ok, err, ◌>>=◌}
use mcp_symposium.Engine.Tables.{update_where}
use mcp_symposium.Storage.Handoff.{
  FetchReply, released, refused, blank, fetch_secret_handoff, sweep_expired_secrets,
}
use mcp_symposium.Storage.Handoff.Spec.{row, HasKeys, may_release, refusal, fetch_spec}
use mcp_symposium.Storage.Handoff.Refine.{fetch-fetch_spec}
use mcp_symposium.Engine.Transactions.{Works}

-- What a caller of FetchSecretHandoff acts on: the envelope, or the error.
abbrev pub answer : FetchReply → String ⊎ Error
answer (released h e) = inl e
answer (refused o e) = inr e

-- the answer to a fetch, if the fetch returned
abbrev pub answered : Result FetchReply → Option (String ⊎ Error)
answered (ok r) = some (answer r)
answered (err e) = none

abbrev pub stale : ℕ → SecretHandoff → Bool
stale now h = ltb h.expires_at now && is_none h.fetched_at && h.envelope_json /= ""

abbrev pub swept : ℕ → SecretHandoff → SecretHandoff
swept now h = if stale now h then blank h else h

answer-swept :
    (actor_id : String) (t now : ℕ) (h : SecretHandoff)
    → t ≤ now
    → answer (fetch_spec actor_id now (some (swept t h))).0
      ≡ answer (fetch_spec actor_id now (some h)).0
unfolding fetch_spec may_release refusal
answer-swept actor_id t now h le = ground arith

module _ (env : Env) (works : Works env) where
  sweep_lem :
      (t : ℕ) (w : World)
      → (sweep_expired_secrets env t w).1
        ≡ record (tick w) { db = record w.db { handoffs = rewrite (stale t) blank w.db.handoffs } }
  unfolding sweep_expired_secrets ◌>>=◌ update_where
  sweep_lem t w = rw (works w.step)

  blank-All :
      (t : ℕ) (hs : List SecretHandoff)
      → All
          (λ h. h.expires_at < t → h.fetched_at ≡ none → (h.envelope_json == "") ≡ true)
          (rewrite (stale t) blank hs)
  blank-All t [] = tt
  blank-All t (h ∷ hs) = (
    elim (Bool-cases (stale t h)) [
      | inl gone ↦ rw gone (λ _ _. refl)
      | inr stays ↦ rw stays (λ late unfetched. ground arith)
    ],
    blank-All t hs,
  )

  -- While the driver works: after a sweep, no handoff that has expired without a fetch holds an envelope.
  pub sweep-blank :
      (t : ℕ) (w : World)
      → All
          (λ h. h.expires_at < t → h.fetched_at ≡ none → (h.envelope_json == "") ≡ true)
          (sweep_expired_secrets env t w).1.db.handoffs
  sweep-blank t w = rw (sweep_lem t w) (blank-All t w.db.handoffs)

  pub row-sweep :
      (id : String) (t : ℕ) (w : World)
      → row id (sweep_expired_secrets env t w).1.db ≡ option_map (swept t) (row id w.db)
  row-sweep id t w =
      rw (sweep_lem t w) (find-rewrite (stale t) blank (λ h. h.id == id) (λ h. refl) w.db.handoffs)

  pub HasKeys-sweep :
      (t : ℕ) (w : World) → HasKeys w.db → HasKeys (sweep_expired_secrets env t w).1.db
  HasKeys-sweep t w keys =
      rw (sweep_lem t w)
        (Keyed-rewrite (λ (g : SecretHandoff). g.id) (stale t) blank (λ h. refl) w.db.handoffs keys)

  pub answered_spec :
      (id actor_id : String) (now : ℕ) (w : World)
      → HasKeys w.db
      → answered (fetch_secret_handoff env id actor_id now w).0
        ≡ some (answer (fetch_spec actor_id now (row id w.db)).0)
  answered_spec id actor_id now w keys =
      ap answered (fetch-fetch_spec env works id actor_id now w keys).0

  -- While the driver works and ids are a primary key: a sweep changes the answer to no fetch at its
  -- time or later, whoever asks for whatever handoff.
  pub fetch-sweep :
      (id actor_id : String) (t now : ℕ) (w : World)
      → t ≤ now
      → HasKeys w.db
      → answered (fetch_secret_handoff env id actor_id now (sweep_expired_secrets env t w).1).0
        ≡ answered (fetch_secret_handoff env id actor_id now w).0
  fetch-sweep id actor_id t now w le keys =
      rw
        (
          answered_spec id actor_id now w keys,
          answered_spec id actor_id now (sweep_expired_secrets env t w).1 (HasKeys-sweep t w keys),
          row-sweep id t w,
        )
        (elim (Option-cases (row id w.db)) [
          | inl missing ↦ rw missing
          | inr (h, here) ↦ rw (here, answer-swept actor_id t now h le)
        ])
