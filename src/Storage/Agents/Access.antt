-- ===== src/Storage/Agents/Access.antt =====
-- Whom a token admits, and when a request is told that its token is worth nothing.
use mcp_symposium.Prelude.{
  ℕ, String, Bool, true, false, ◌≡◌, ◌≢◌, refl, sym, ◌&&◌, Option, none, some, List, [], ◌∷◌, inl,
  inr, arith, ◌==◌, is_none, Bool-cases, Option-cases, find, rewrite, All, eq_iff,
}
use mcp_symposium.Prelude.Rows.{find_sound}
use mcp_symposium.Models.{Actor, AgentCredential, Db}
use mcp_symposium.Engine.{
  Env, World, Result, ok, err, not_found, invalid_token, pure, fail, attempt, ◌>>=◌, ◌>>◌, now,
}
use mcp_symposium.Engine.Keeps.{Keeps-now}
use mcp_symposium.Engine.Tables.{first_where, update_where}
use mcp_symposium.Engine.Ensures.{
  Ensures, Outcome, Ensures-bind, Ensures-Keeps, Ensures-pure, Ensures-first_where, Ensures-attempt,
  Ensures-update_where, Ensures-weaken, Ensures-mono, Outcome-mono,
}
use mcp_symposium.Storage.Schema.{actors, credentials}
use mcp_symposium.Storage.Agents.{
  Secrets, revoked_token, is_live, or_invalid, revoked, authenticate, revoke_all_agent_credentials,
  require_bearer, admission, cut_prefix,
}

-- the credential of a live token
abbrev pub live : Secrets → String → Db → Option AgentCredential
live secrets raw d = find (is_live (secrets.hash raw)) d.credentials

-- The token is live, and this is its actor.
abbrev pub IsOwner : Secrets → String → Db → Actor → Type 0
IsOwner secrets raw d a =
    (c : AgentCredential) × (live secrets raw d ≡ some c) × ((a.id == c.actor_id) ≡ true)

Ensures-or_invalid :
    {Q : AgentCredential → Db → Type 0} (r : Result AgentCredential)
    → Ensures (λ d. Outcome Q (r, record { db = d; step = 0 })) (or_invalid r) Q
unfolding or_invalid pure fail
Ensures-or_invalid {Q} r = record { at = λ w h. out r w h }
  where
    out :
        (r : Result AgentCredential) (w : World)
        → Outcome Q (r, record { db = w.db; step = 0 })
        → Outcome Q (or_invalid r w)
    out (ok c) w h = h
    out (err not_found) w h = tt
    out (err e) w h = tt

-- Whatever the driver does: an actor that Authenticate returns has a credential with the hash of
-- the token that is not revoked.
pub authenticate-IsOwner :
    (env : Env) (secrets : Secrets) (raw : String) (w : World)
    → Outcome (λ a d. IsOwner secrets raw w.db a) (authenticate env secrets raw w)
unfolding authenticate ◌>>=◌
authenticate-IsOwner env secrets raw w =
    (Ensures-bind {P = λ d. d ≡ w.db} {R = λ a d. IsOwner secrets raw w.db a} _ _
        (Ensures-attempt _ (Ensures-first_where env credentials (is_live (secrets.hash raw))))
        λ found. Ensures-bind _ _ (Ensures-or_invalid found) λ cred.
          Ensures-weaken {R = λ d. live secrets raw w.db ≡ some cred} _ (λ d h. rw (sym h.0) h.1)
            (Ensures-bind _ _ (Ensures-Keeps _ (Keeps-now env)) λ at.
              Ensures-bind
                (attempt (
                  update_where env credentials (λ c. c.id == cred.id)
                    (λ c. record c { last_used_at = some at })))
                _ (Ensures-Keeps _ (record { at = λ _ h. h }))
                λ _.
                  Ensures-mono
                    {Q = λ a d.
                      (live secrets raw w.db ≡ some cred)
                      × (find (λ x. x.id == cred.actor_id) d.actors ≡ some a)}
                    _
                    (λ a d h.
                      (cred, h.0, find_sound (λ (x : Actor). x.id == cred.actor_id) d.actors h.1))
                    (Ensures-first_where env actors (λ a. a.id == cred.actor_id)))).at
      w refl

-- Every credential of the actor is revoked.
abbrev pub IsLockedOut : String → Db → Type 0
IsLockedOut actor_id d =
    All (λ c. (c.actor_id == actor_id) ≡ true → is_none c.revoked_at ≡ false) d.credentials

revoked-All :
    (actor_id : String) (at : ℕ) (cs : List AgentCredential)
    → All
        (λ c. (c.actor_id == actor_id) ≡ true → is_none c.revoked_at ≡ false)
        (rewrite (λ c. c.actor_id == actor_id && is_none c.revoked_at) (revoked at) cs)
revoked-All actor_id at [] = tt
revoked-All actor_id at (c ∷ cs) = (
  elim (Bool-cases (c.actor_id == actor_id && is_none c.revoked_at)) [
    | inl hit ↦ rw hit (λ own. refl)
    | inr miss ↦ rw miss (λ own. ground (arith, miss, own))
  ],
  revoked-All actor_id at cs,
)

no_live :
    (hashed actor_id : String) (cs : List AgentCredential) {c : AgentCredential}
    → All (λ c. (c.actor_id == actor_id) ≡ true → is_none c.revoked_at ≡ false) cs
    → find (is_live hashed) cs ≡ some c
    → (c.actor_id == actor_id) ≡ false
no_live hashed actor_id [] {c} h here = cc
no_live hashed actor_id (x ∷ xs) {c} h here = elim (Bool-cases (is_live hashed x)) [
  | inl hit ↦ ground (arith, hit, h.0, here)
  | inr miss ↦ no_live hashed actor_id xs {c = c} h.1 (rw miss at here)
]

module _ (env : Env) (secrets : Secrets) (actor_id : String) where
  revoke_all-Ensures :
      Ensures (λ _. Unit) (revoke_all_agent_credentials env actor_id) (λ _. IsLockedOut actor_id)
  unfolding revoke_all_agent_credentials
  revoke_all-Ensures = Ensures-bind _ _ (Ensures-Keeps _ (Keeps-now env)) λ at.
      Ensures-bind _ _
        (Ensures-update_where env credentials _ _ {Q = IsLockedOut actor_id}
          (λ d h. revoked-All actor_id at d.credentials))
        λ _. Ensures-pure tt (λ d h. h)

  -- Once RevokeAllAgentCredentials has returned, no token authenticates as that actor.
  pub authenticate-revoke_all :
      (raw : String) (w : World)
      → Outcome
          (λ a d. (a.id == actor_id) ≡ false)
          ((revoke_all_agent_credentials env actor_id >> authenticate env secrets raw) w)
  authenticate-revoke_all raw w =
      (Ensures-bind _ _ revoke_all-Ensures λ _. record {
        at = λ v locked.
            Outcome-mono (λ a d. IsOwner secrets raw v.db a) (λ a d. (a.id == actor_id) ≡ false)
              (authenticate env secrets raw v)
              (λ a d o.
                let (c, here, own) = o in
                ground (
                  arith,
                  no_live (secrets.hash raw) actor_id v.db.credentials {c = c} locked here,
                  own,
                  eq_iff a.id c.actor_id,
                ))
              (authenticate-IsOwner env secrets raw v);
      }).at
        w tt

ok_inj : {A : Type 0} {a b : A} → ok a ≡ ok b → a ≡ b
ok_inj h = cc

admission_revoked :
    (env : Env) (secrets : Secrets) (r : Result Actor)
    → admission env secrets r ≡ revoked_token
    → r ≡ err invalid_token
admission_revoked env secrets (ok a) h = cc
admission_revoked env secrets (err invalid_token) h = refl
admission_revoked env secrets (err e) h = cc

owner_found :
    (env : Env) (p : Actor → Bool) (v : World) → (first_where env actors p v).0 ≢ err invalid_token
unfolding first_where
owner_found env p v h = elim (Bool-cases (env.fails v.step)) [
  | inl down ↦ absurd (cc (rw down at h))
  | inr up ↦ elim (Option-cases (find p v.db.actors)) [
    | inl missing ↦ absurd (cc (rw (up, missing) at h))
    | inr (a, here) ↦ absurd (cc (rw (up, here) at h))
  ]
]

live_admitted :
    (env : Env) (secrets : Secrets) (raw : String) (w : World) (c : AgentCredential)
    → live secrets raw w.db ≡ some c
    → (authenticate env secrets raw w).0 ≢ err invalid_token
unfolding authenticate ◌>>=◌ first_where or_invalid now
live_admitted env secrets raw w c here h = elim (Bool-cases (env.fails w.step)) [
  | inl down ↦ absurd (cc (rw down at h))
  | inr up ↦ owner_found env _ _ (rw (up, here) at h)
]

-- A request is told 401 with "invalid or revoked token" only if no live credential has the token's
-- hash: an outage of the database is never taken for a revoked token.
pub require_bearer-revoked :
    (env : Env) (secrets : Secrets) (header token : String) (w : World)
    → cut_prefix "Bearer " header ≡ some token
    → (require_bearer env secrets header w).0 ≡ ok revoked_token
    → live secrets token w.db ≡ none
unfolding require_bearer ◌>>=◌ pure attempt
require_bearer-revoked env secrets header token w cut h = elim (Bool-cases (token == "")) [
  | inl blank ↦ absurd (cc (rw (cut, blank) at h))
  | inr full ↦ elim (Option-cases (live secrets token w.db)) [
    | inl missing ↦ missing
    | inr (c, here) ↦ absurd (
        live_admitted env secrets token w c here (
          admission_revoked env secrets (authenticate env secrets token w).0
            (ok_inj (rw (cut, full) at h))))
  ]
]
