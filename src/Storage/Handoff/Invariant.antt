-- ===== src/Storage/Handoff/Invariant.antt =====
-- What the calls of this file keep, whatever the driver refuses.
use mcp_symposium.Prelude.{
  ℕ, String, Bool, true, false, ◌≡◌, refl, ◌∙◌, some, [], ◌∷◌, ◌++◌, arith, ◌==◌, if◌then◌else◌,
  is_some, any, rewrite,
}
use mcp_symposium.Prelude.Rows.{Keyed-rewrite, Keyed-append, find-append, find-rewrite}
use mcp_symposium.Models.{SecretHandoff, Db}
use mcp_symposium.Engine.{Env, Result, not_found, ok, err}
use mcp_symposium.Engine.Keeps.{Keeps, keeps_rules, Keeps-update_where, Keeps-create}
use mcp_symposium.Engine.Tables.{update_where}
use mcp_symposium.Storage.Schema.{handoffs}
use mcp_symposium.Storage.Handoff.{
  claimed, blank, foreign, fetch_secret_handoff, release, classify, after_claim, after_read,
  create_secret_handoff, sweep_expired_secrets, approve_secret_handoff,
}
use mcp_symposium.Storage.Handoff.Spec.{row, HasKeys}

-- What every update of a handoff respects: its id, and that a fetch is never taken back.
pub record IsUpdate (f : SecretHandoff → SecretHandoff) : Type 0 where
  pub keeps_id : (h : SecretHandoff) → (f h).id ≡ h.id
  pub keeps_fetched :
      (h : SecretHandoff) → is_some h.fetched_at ≡ true → is_some (f h).fetched_at ≡ true

-- An invariant that every update and every new handoff respects is kept by every call.
module _ {P : Db → Type 0}
    (updated : (p : SecretHandoff → Bool) (f : SecretHandoff → SecretHandoff)
      → IsUpdate f
      → (d : Db) → P d
      → P (record d { handoffs = rewrite p f d.handoffs }))
    (added : (h : SecretHandoff) (d : Db)
      → P d
      → any (λ g. h.id == g.id) d.handoffs ≡ false
      → P (record d { handoffs = d.handoffs ++ h ∷ [] }))
    (env : Env) where
  update-Keeps :
      (p : SecretHandoff → Bool) (f : SecretHandoff → SecretHandoff)
      → IsUpdate f
      → Keeps P (update_where env handoffs p f)
  update-Keeps p f u = Keeps-update_where env handoffs p f (updated p f u)

  blank-Keeps : (p : SecretHandoff → Bool) → Keeps P (update_where env handoffs p blank)
  blank-Keeps p = update-Keeps p blank (record { keeps_id = λ h. refl; keeps_fetched = λ h e. e })

  foreign-Keeps : (p : SecretHandoff → Bool) → Keeps P (update_where env handoffs p foreign)
  foreign-Keeps p =
      update-Keeps p foreign (record { keeps_id = λ h. refl; keeps_fetched = λ h e. e })

  claimed-Keeps :
      (actor_id : String) (now : ℕ) (p : SecretHandoff → Bool)
      → Keeps P (update_where env handoffs p (claimed actor_id now))
  claimed-Keeps actor_id now p =
      update-Keeps p (claimed actor_id now)
        (record { keeps_id = λ h. refl; keeps_fetched = λ h e. refl })

  release-Keeps : (id : String) (h : SecretHandoff) → Keeps P (release env id h)
  unfolding release
  release-Keeps id h = search (keeps_rules, blank-Keeps)

  classify-Keeps : (id actor_id : String) (h : SecretHandoff) → Keeps P (classify env id actor_id h)
  unfolding classify
  classify-Keeps id actor_id h = search (keeps_rules, foreign-Keeps)

  after_read-Keeps :
      (id actor_id : String) (n : ℕ) (r : Result SecretHandoff)
      → Keeps P (after_read env id actor_id n r)
  unfolding after_read
  after_read-Keeps id actor_id n (ok h) = search (keeps_rules, release-Keeps, classify-Keeps)
  after_read-Keeps id actor_id n (err not_found) = search keeps_rules
  after_read-Keeps id actor_id n (err e) = search keeps_rules

  after_claim-Keeps :
      (id actor_id : String) (r : Result ℕ) → Keeps P (after_claim env id actor_id r)
  unfolding after_claim
  after_claim-Keeps id actor_id (ok n) = search (keeps_rules, after_read-Keeps)
  after_claim-Keeps id actor_id (err e) = search keeps_rules

  pub fetch-Keeps :
      (id actor_id : String) (now : ℕ) → Keeps P (fetch_secret_handoff env id actor_id now)
  unfolding fetch_secret_handoff
  fetch-Keeps id actor_id now = search (keeps_rules, claimed-Keeps, after_claim-Keeps)

  pub create-Keeps : (h : SecretHandoff) → Keeps P (create_secret_handoff env h)
  unfolding create_secret_handoff
  create-Keeps h = Keeps-create env handoffs h (added h)

  pub sweep-Keeps : (now : ℕ) → Keeps P (sweep_expired_secrets env now)
  unfolding sweep_expired_secrets
  sweep-Keeps now = search (keeps_rules, blank-Keeps)

  pub approve-Keeps :
      (id approver : String) (now : ℕ) → Keeps P (approve_secret_handoff env id approver now)
  unfolding approve_secret_handoff
  approve-Keeps id approver now = search (keeps_rules, update-Keeps)

-- The keys stay apart, whatever is called.
pub HasKeys-updated :
    (p : SecretHandoff → Bool) (f : SecretHandoff → SecretHandoff)
    → IsUpdate f
    → (d : Db) → HasKeys d
    → HasKeys (record d { handoffs = rewrite p f d.handoffs })
HasKeys-updated p f u d h = Keyed-rewrite (λ (g : SecretHandoff). g.id) p f u.keeps_id d.handoffs h

pub HasKeys-added :
    (h : SecretHandoff) (d : Db)
    → HasKeys d
    → any (λ g. h.id == g.id) d.handoffs ≡ false
    → HasKeys (record d { handoffs = d.handoffs ++ h ∷ [] })
HasKeys-added h d k fresh = Keyed-append (λ (g : SecretHandoff). g.id) d.handoffs h fresh k

-- The handoff with this id was fetched.
abbrev pub IsSpent : String → Db → Type 0
IsSpent id d = (h : SecretHandoff) × (row id d ≡ some h) × (is_some h.fetched_at ≡ true)

pub IsSpent-updated :
    (id : String) (p : SecretHandoff → Bool) (f : SecretHandoff → SecretHandoff)
    → IsUpdate f
    → (d : Db) → IsSpent id d
    → IsSpent id (record d { handoffs = rewrite p f d.handoffs })
IsSpent-updated id p f u d (h, here, spent) = (
  (if p h then f h else h),
  find-rewrite p f (λ g. g.id == id) (λ g. rw (u.keeps_id g)) d.handoffs ∙ rw here,
  ground (arith, u.keeps_fetched h),
)

pub IsSpent-added :
    (id : String) (h : SecretHandoff) (d : Db)
    → IsSpent id d
    → any (λ g. h.id == g.id) d.handoffs ≡ false
    → IsSpent id (record d { handoffs = d.handoffs ++ h ∷ [] })
IsSpent-added id h d (g, here, spent) fresh =
    (g, find-append (λ (x : SecretHandoff). x.id == id) d.handoffs h here, spent)
