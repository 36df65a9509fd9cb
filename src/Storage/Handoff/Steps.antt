-- ===== src/Storage/Handoff/Steps.antt =====
-- FetchSecretHandoff step by step: the claim, the read, and the last write.
use mcp_symposium.Prelude.{
  ℕ, suc, String, Bool, true, false, ◌≡◌, refl, ◌∙◌, rewrite, none, some, inl, inr, arith, ◌==◌,
  eq_iff, nat_eq, if◌then◌else◌, count, Bool-cases,
}
use mcp_symposium.Prelude.Rows.{option_map, find-rewrite, find-rewrite_ne, find_sound, count-Keyed}
use mcp_symposium.Models.{SecretHandoff, Db}
use mcp_symposium.Engine.{Env, World, tick, secret_not_found, ok, ◌>>=◌}
use mcp_symposium.Engine.Tables.{first_where, update_where}
use mcp_symposium.Storage.Handoff.{
  released, refused, claimable, claimed, blank, foreign, fetch_secret_handoff, release, classify,
  after_claim, after_read,
}
use mcp_symposium.Storage.Handoff.Spec.{row, HasKeys, may_release, refusal, Leaves}

module _ (id : String) (p : SecretHandoff → Bool) (f : SecretHandoff → SecretHandoff) (d : Db)
    (keeps : (h : SecretHandoff) → (f h).id ≡ h.id)
    (only : (h : SecretHandoff) → p h ≡ true → h.id ≡ id) where
  -- An update of one handoff leaves the others.
  pub update-Leaves :
      Leaves id d
        (option_map (λ h. if p h then f h else h) (row id d))
        (record d { handoffs = rewrite p f d.handoffs })
  update-Leaves = (
    find-rewrite p f (λ h. h.id == id) (λ h. rw (keeps h)) d.handoffs,
    λ j other.
        find-rewrite_ne p f (λ h. h.id == j) (λ h. rw (keeps h)) (λ h e. rw (only h e) other)
          d.handoffs,
  )

has_id : (id : String) (h : SecretHandoff) → (h.id == id) ≡ true → h.id ≡ id
has_id id h = (eq_iff h.id id).0

claimable-id :
    (id actor_id : String) (now : ℕ) (h : SecretHandoff)
    → claimable id actor_id now h ≡ true
    → h.id ≡ id
claimable-id id actor_id now h e = ground (arith, eq_iff h.id id)

pub claimable-may_release :
    (id actor_id : String) (now : ℕ) (h : SecretHandoff)
    → (h.id == id) ≡ true
    → claimable id actor_id now h ≡ may_release actor_id now h
unfolding may_release
claimable-may_release id actor_id now h e = ground arith

module _ (env : Env) (id : String) (h : SecretHandoff) (w : World) (up : env.fails w.step ≡ false)
    (here : row id w.db ≡ some h) where
  same_id : (h.id == id) ≡ true
  same_id = find_sound (λ (g : SecretHandoff). g.id == id) w.db.handoffs here

  -- an update by id alone
  update_found :
      (f : SecretHandoff → SecretHandoff)
      → ((g : SecretHandoff) → (f g).id ≡ g.id)
      → Leaves id w.db
          (some (f h))
          (record w.db { handoffs = rewrite (λ g. g.id == id) f w.db.handoffs })
  update_found f keeps =
      let (self, others) = update-Leaves id (λ g. g.id == id) f w.db keeps (has_id id) in
      (self ∙ rw (here, same_id), others)

  pub release_lem :
      let r = release env id h w in
      (r.0 ≡ ok (released (blank h) h.envelope_json)) × Leaves id w.db (some (blank h)) r.1.db
  unfolding release ◌>>=◌ update_where
  release_lem = rw up (refl, update_found blank (λ g. refl))

  pub classify_lem :
      (actor_id : String)
      → let r = classify env id actor_id h w in
        let (e, h') = refusal actor_id h in
        (r.0 ≡ ok (refused (some h) e)) × Leaves id w.db (some h') r.1.db
  unfolding classify refusal ◌>>=◌ update_where
  classify_lem actor_id = elim (Bool-cases (h.to_actor_id == actor_id)) [
    | inl mine ↦ rw mine (ground (arith, here))
    | inr other ↦ rw (other, up) (refl, update_found foreign (λ g. refl))
  ]

module _ (env : Env) (id actor_id : String) where
  pub after_claim-some :
      (n : ℕ) (h : SecretHandoff) (w : World)
      → env.fails w.step ≡ false
      → row id w.db ≡ some h
      → after_claim env id actor_id (ok n) w
        ≡ (if nat_eq n 1 then release env id h (tick w) else classify env id actor_id h (tick w))
  unfolding after_claim after_read ◌>>=◌ first_where
  after_claim-some n h w up here = rw (up, here) (ground arith)

  pub after_claim-none :
      (n : ℕ) (w : World)
      → env.fails w.step ≡ false
      → row id w.db ≡ none
      → after_claim env id actor_id (ok n) w ≡ (ok (refused none secret_not_found), tick w)
  unfolding after_claim after_read ◌>>=◌ first_where
  after_claim-none n w up here = rw (up, here)

  abbrev pub after_update : ℕ → World → World
  after_update now w = record (tick w) {
    db = record w.db {
      handoffs = rewrite (claimable id actor_id now) (claimed actor_id now) w.db.handoffs;
    };
  }

  pub fetch_claims :
      (now : ℕ) (w : World)
      → env.fails w.step ≡ false
      → fetch_secret_handoff env id actor_id now w
        ≡ after_claim env id actor_id
            (ok (count (claimable id actor_id now) w.db.handoffs))
            (after_update now w)
  unfolding fetch_secret_handoff ◌>>=◌ update_where
  fetch_claims now w up = rw up

  pub claim-Leaves :
      (now : ℕ) (w : World)
      → Leaves id w.db
          (option_map
            (λ h. if claimable id actor_id now h then claimed actor_id now h else h)
            (row id w.db))
          (after_update now w).db
  claim-Leaves now w =
      update-Leaves id (claimable id actor_id now) (claimed actor_id now) w.db (λ h. refl)
        (claimable-id id actor_id now)

  claim_count :
      (now : ℕ) (w : World) (h : SecretHandoff)
      → HasKeys w.db
      → row id w.db ≡ some h
      → count (claimable id actor_id now) w.db.handoffs
        ≡ (if claimable id actor_id now h then 1 else 0)
  claim_count now w h keys here =
      count-Keyed (λ (g : SecretHandoff). g.id) id (claimable id actor_id now)
        (claimable-id id actor_id now) w.db.handoffs keys
      ∙ rw here

  -- what a fetch does where the handoff is there, and whether it may go is known
  pub fetch_found :
      (now : ℕ) (w : World) (h : SecretHandoff) (may : Bool)
      → env.fails w.step ≡ false
      → env.fails (suc w.step) ≡ false
      → HasKeys w.db
      → row id w.db ≡ some h
      → may_release actor_id now h ≡ may
      → (row id (after_update now w).db ≡ some (if may then claimed actor_id now h else h))
        × (fetch_secret_handoff env id actor_id now w ≡ (
            if may
            then release env id (claimed actor_id now h) (tick (after_update now w))
            else classify env id actor_id h (tick (after_update now w))))
  fetch_found now w h may up up' keys here decided = (
    updated,
    fetch_claims now w up
        ∙ after_claim-some (count (claimable id actor_id now) w.db.handoffs)
            (if may then claimed actor_id now h else h) (after_update now w) up' updated
        ∙ rw (claim_count now w h keys here, guard) (ground arith),
  )
    where
      guard : claimable id actor_id now h ≡ may
      guard =
          claimable-may_release id actor_id now h
            (find_sound (λ (g : SecretHandoff). g.id == id) w.db.handoffs here)
          ∙ decided

      updated : row id (after_update now w).db ≡ some (if may then claimed actor_id now h else h)
      updated = (claim-Leaves now w).0 ∙ rw (here, guard)
