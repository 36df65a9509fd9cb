-- ===== src/Storage/Handoff/Refine.antt =====
-- FetchSecretHandoff refines its description, while the driver refuses nothing.
use mcp_symposium.Prelude.{
  ℕ, suc, String, true, false, ◌≡◌, refl, ◌∙◌, none, inl, inr, Bool-cases, Option-cases,
}
use mcp_symposium.Engine.{Env, World, tick, ok}
use mcp_symposium.Engine.Transactions.{Works}
use mcp_symposium.Storage.Handoff.{claimed, fetch_secret_handoff}
use mcp_symposium.Storage.Handoff.Spec.{row, HasKeys, may_release, fetch_spec, Leaves}
use mcp_symposium.Storage.Handoff.Steps.{
  after_update, after_claim-none, fetch_claims, fetch_found, claim-Leaves, release_lem,
  classify_lem,
}

module _ (env : Env) (works : Works env) (id actor_id : String) where
  -- While the driver works and ids are a primary key, a fetch answers what `fetch_spec` says of the
  -- handoff with its id, leaves in that row what `fetch_spec` says, and leaves every other handoff.
  pub fetch-fetch_spec :
      (now : ℕ) (w : World)
      → HasKeys w.db
      → let (reply, o) = fetch_spec actor_id now (row id w.db) in
        let r = fetch_secret_handoff env id actor_id now w in
        (r.0 ≡ ok reply) × Leaves id w.db o r.1.db
  unfolding fetch_spec
  fetch-fetch_spec now w keys = elim (Option-cases (row id w.db)) [
    | inl missing ↦
        let left = claim-Leaves env id actor_id now w in
        let gone : row id (after_update env id actor_id now w).db ≡ none = left.0 ∙ rw missing in
        rw
          (
            missing,
            fetch_claims env id actor_id now w (works w.step),
            after_claim-none env id actor_id _ (after_update env id actor_id now w)
                (works (suc w.step)) gone,
          )
          (refl, (gone, left.1))
    | inr (h, here) ↦ elim (Bool-cases (may_release actor_id now h)) [
      | inl may ↦
          let (there, runs) =
            fetch_found env id actor_id now w h true (works w.step) (works (suc w.step)) keys here
              may in
          let (reply, left) =
            release_lem env id (claimed actor_id now h) (tick (after_update env id actor_id now w))
              (works (suc (suc w.step))) there in
          rw (here, may, runs)
            (
              reply,
              (left.0, λ j other. left.1 j other ∙ (claim-Leaves env id actor_id now w).1 j other),
            )
      | inr stays ↦
          let (there, runs) =
            fetch_found env id actor_id now w h false (works w.step) (works (suc w.step)) keys here
              stays in
          let (reply, left) =
            classify_lem env id h (tick (after_update env id actor_id now w))
              (works (suc (suc w.step))) there actor_id in
          rw (here, stays, runs)
            (
              reply,
              (left.0, λ j other. left.1 j other ∙ (claim-Leaves env id actor_id now w).1 j other),
            )
    ]
  ]
