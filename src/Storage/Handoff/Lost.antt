-- ===== src/Storage/Handoff/Lost.antt =====
-- A driver error between the claim and the hand-out.
use mcp_symposium.Prelude.{ℕ, suc, String, true, false, ◌≡◌, refl, ◌∙◌, some, List, ◌==◌}
use mcp_symposium.Prelude.Rows.{find_sound}
use mcp_symposium.Models.{SecretHandoff}
use mcp_symposium.Engine.{Env, World, ◌>>=◌}
use mcp_symposium.Engine.Tables.{first_where}
use mcp_symposium.Storage.Handoff.{claimed, fetch_secret_handoff, after_claim, after_read}
use mcp_symposium.Storage.Handoff.Spec.{row, HasKeys, may_release}
use mcp_symposium.Storage.Handoff.Steps.{
  after_update, fetch_claims, claim-Leaves, claimable-may_release,
}
use mcp_symposium.Storage.Handoff.Invariant.{fetch-Keeps, HasKeys-updated, HasKeys-added}
use mcp_symposium.Storage.Handoff.Once.{Call, is_released, releases, releases_spent, refused_second}

module _ (env : Env) (id actor_id : String) (now : ℕ) (h : SecretHandoff) (w : World)
    (up : env.fails w.step ≡ false) (down : env.fails (suc w.step) ≡ true)
    (here : row id w.db ≡ some h) (may : may_release actor_id now h ≡ true) where
  row-claimed : row id (after_update env id actor_id now w).db ≡ some (claimed actor_id now h)
  row-claimed =
      (claim-Leaves env id actor_id now w).0
      ∙ rw (
        here,
        claimable-may_release id actor_id now h
            (find_sound (λ (g : SecretHandoff). g.id == id) w.db.handoffs here),
        may,
      )

  claim_stays :
      row id (fetch_secret_handoff env id actor_id now w).1.db ≡ some (claimed actor_id now h)
  unfolding after_claim after_read ◌>>=◌ first_where
  claim_stays = rw (fetch_claims env id actor_id now w up, down) row-claimed

  -- If ids are a primary key, and the driver lets the claim pass and refuses the read that follows it,
  -- the envelope of a handoff that was free to go is handed out neither by this fetch nor by any later
  -- call.
  pub fetch_lost :
      HasKeys w.db
      → (cs : List Call)
      → (is_released (fetch_secret_handoff env id actor_id now w).0 ≡ false)
        × (releases env id cs (fetch_secret_handoff env id actor_id now w).1 ≡ 0)
  fetch_lost keys cs = (
    refused_second env id actor_id now w up down,
    releases_spent env id cs _
        ((fetch-Keeps HasKeys-updated HasKeys-added env id actor_id now).at w keys)
        (claimed actor_id now h, claim_stays, refl),
  )
