-- ===== src/Storage/Handoff/Approve.antt =====
-- ApproveSecretHandoff, and what it does for a later fetch.
use mcp_symposium.Prelude.{
  ℕ, ◌≤◌, String, Bool, true, false, ◌≡◌, refl, ◌∙◌, ◌&&◌, none, some, inl, inr, arith, ◌==◌, leb,
  is_none, rewrite, eq_iff, count,
}
use mcp_symposium.Prelude.Rows.{Keyed-rewrite, find-rewrite, find_sound, count-Keyed}
use mcp_symposium.Models.{SecretHandoff}
use mcp_symposium.Engine.{Env, World, tick, ok, ◌>>=◌, secret_needs_approval}
use mcp_symposium.Engine.Tables.{update_where}
use mcp_symposium.Storage.Handoff.{fetch_secret_handoff, approve_secret_handoff}
use mcp_symposium.Storage.Handoff.Spec.{row, HasKeys, may_release, refusal, fetch_spec}
use mcp_symposium.Engine.Transactions.{Works}
use mcp_symposium.Storage.Handoff.Sweep.{answered, answered_spec}

abbrev approvable : String → ℕ → SecretHandoff → Bool
approvable id now h =
    h.id == id && is_none h.approved_at && is_none h.fetched_at && leb now h.expires_at

abbrev approved : String → ℕ → SecretHandoff → SecretHandoff
approved approver now h = record h { approved_at = some now; approved_by = approver }

module _ (env : Env) (works : Works env) where
  abbrev after_approve : String → String → ℕ → World → World
  after_approve id approver t w = record (tick w) {
    db = record w.db { handoffs = rewrite (approvable id t) (approved approver t) w.db.handoffs };
  }

  approve_lem :
      (id approver : String) (t : ℕ) (h : SecretHandoff) (w : World)
      → HasKeys w.db
      → row id w.db ≡ some h
      → approvable id t h ≡ true
      → approve_secret_handoff env id approver t w ≡ (ok tt, after_approve id approver t w)
  unfolding approve_secret_handoff ◌>>=◌ update_where
  approve_lem id approver t h w keys here may = rw (works w.step, matched)
    where
      matched : count (approvable id t) w.db.handoffs ≡ 1
      matched =
          count-Keyed (λ (g : SecretHandoff). g.id) id (approvable id t)
            (λ g e. ground (arith, eq_iff g.id id)) w.db.handoffs keys
          ∙ rw (here, may)

  row-approve :
      (id approver : String) (t : ℕ) (h : SecretHandoff) (w : World)
      → row id w.db ≡ some h
      → approvable id t h ≡ true
      → row id (after_approve id approver t w).db ≡ some (approved approver t h)
  row-approve id approver t h w here may =
      find-rewrite (approvable id t) (approved approver t) (λ g. g.id == id) (λ g. refl)
        w.db.handoffs
      ∙ rw (here, may)

  HasKeys-approve :
      (id approver : String) (t : ℕ) (w : World)
      → HasKeys w.db
      → HasKeys (after_approve id approver t w).db
  HasKeys-approve id approver t w keys =
      Keyed-rewrite (λ (g : SecretHandoff). g.id) (approvable id t) (approved approver t)
        (λ g. refl) w.db.handoffs keys

  -- While the driver works and ids are a primary key: for an admin handoff that is not yet approved,
  -- fetched or blank, the recipient who fetches before it expires is told that approval is missing;
  -- an approval before it expires succeeds, and after it the same fetch gets the envelope.
  pub fetch-approve :
      (id actor_id approver : String) (t now : ℕ) (h : SecretHandoff) (w : World)
      → HasKeys w.db
      → row id w.db ≡ some h
      → (h.to_actor_id == actor_id) ≡ true
      → (h.class == "admin") ≡ true
      → (h.envelope_json == "") ≡ false
      → h.fetched_at ≡ none
      → h.approved_at ≡ none
      → t ≤ h.expires_at
      → now ≤ h.expires_at
      → let a = approve_secret_handoff env id approver t w in
        (answered (fetch_secret_handoff env id actor_id now w).0 ≡ some (inr secret_needs_approval))
        × (a.0 ≡ ok tt)
        × (answered (fetch_secret_handoff env id actor_id now a.1).0 ≡ some (inl h.envelope_json))
  unfolding fetch_spec may_release refusal
  fetch-approve id actor_id approver t now h w keys here mine admin full unfetched unapproved live
        free =
      let same : (h.id == id) ≡ true =
        find_sound (λ (g : SecretHandoff). g.id == id) w.db.handoffs here in
      let may : approvable id t h ≡ true = ground arith in
      let done = approve_lem id approver t h w keys here may in
      let after =
        answered_spec env works id actor_id now (after_approve id approver t w)
          (HasKeys-approve id approver t w keys) in
      (
        answered_spec env works id actor_id now w keys ∙ rw here (ground arith),
        rw done,
        rw (done, after, row-approve id approver t h w here may) (ground arith),
      )
