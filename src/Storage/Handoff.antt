-- ===== src/Storage/Handoff.antt =====
-- internal/storage/secret_handoff.go: one-time handoff of encrypted credentials. Each statement of
-- the source is one statement here; the file opens no transaction but for the alerts.
pub mod Spec
mod Steps
pub mod Refine
pub mod Invariant
pub mod Once
pub mod Sweep
pub mod Approve
pub mod Lost
use mcp_symposium.Prelude.{
  ℕ, suc, String, Bool, ◌&&◌, ◌||◌, Option, none, some, ◌==◌, ◌/=◌, ltb, leb, nat_eq, is_some,
  is_none, if◌then◌else◌,
}
use mcp_symposium.Models.{SecretHandoff}
use mcp_symposium.Engine.{
  Env, Error, not_found, secret_not_found, secret_already_fetched, secret_foreign_fetch,
  secret_needs_approval, not_approvable, Result, ok, err, Tx, pure, fail, attempt, ◌>>=◌, ◌>>◌, now,
}
use mcp_symposium.Engine.Tables.{create, first_where, update_where}
use mcp_symposium.Storage.Schema.{handoffs}

-- What FetchSecretHandoff returns: the row with its envelope, or the error with the row if there is one.
pub data FetchReply : Type 0 where
  released : SecretHandoff → String → FetchReply
  refused : Option SecretHandoff → Error → FetchReply

-- The WHERE clause of the claim.
abbrev pub claimable : String → String → ℕ → SecretHandoff → Bool
claimable id actor_id now h =
    h.id == id
    && h.to_actor_id == actor_id
    && is_none h.fetched_at
    && h.envelope_json /= ""
    && leb now h.expires_at
    && (h.class /= "admin" || is_some h.approved_at)

abbrev pub claimed : String → ℕ → SecretHandoff → SecretHandoff
claimed actor_id now h = record h { fetched_at = some now; fetched_by_actor = actor_id }

abbrev pub blank : SecretHandoff → SecretHandoff
blank h = record h { envelope_json = "" }

abbrev pub foreign : SecretHandoff → SecretHandoff
foreign h = record h { foreign_attempts = suc h.foreign_attempts }

module _ (env : Env) where
  -- CreateSecretHandoff
  unfoldable pub create_secret_handoff : SecretHandoff → Tx Unit
  create_secret_handoff h = create env handoffs h

  -- the claim was won: hand the envelope out, and blank it in the table
  pub release : String → SecretHandoff → Tx FetchReply
  release id h = do
    done ← attempt (update_where env handoffs (λ r. r.id == id) blank)
    pure (elim done [ ok n ↦ released (blank h) h.envelope_json | err e ↦ refused (some h) e ])

  -- the claim matched nothing: say why
  pub classify : String → String → SecretHandoff → Tx FetchReply
  classify id actor_id h =
      if h.to_actor_id /= actor_id
      then (do
        attempt (update_where env handoffs (λ r. r.id == id) foreign)
        pure (refused (some h) secret_foreign_fetch))
      else if is_some h.fetched_at
      then pure (refused (some h) secret_already_fetched)
      else if h.class == "admin" && is_none h.approved_at
      then pure (refused (some h) secret_needs_approval)
      else pure (refused (some h) secret_not_found)

  -- the row as it is after the claim, and how many rows the claim matched
  pub after_read : String → String → ℕ → Result SecretHandoff → Tx FetchReply
  unfolding release classify
  after_read id actor_id n (ok h) = if nat_eq n 1 then release id h else classify id actor_id h
  after_read id actor_id n (err not_found) = pure (refused none secret_not_found)
  after_read id actor_id n (err e) = pure (refused none e)

  pub after_claim : String → String → Result ℕ → Tx FetchReply
  unfolding after_read
  after_claim id actor_id (err e) = pure (refused none e)
  after_claim id actor_id (ok n) = do
    row ← attempt (first_where env handoffs (λ r. r.id == id))
    after_read id actor_id n row

  -- FetchSecretHandoff
  unfoldable pub fetch_secret_handoff : String → String → ℕ → Tx FetchReply
  unfolding after_claim
  fetch_secret_handoff id actor_id now = do
    claim ← attempt (update_where env handoffs (claimable id actor_id now) (claimed actor_id now))
    after_claim id actor_id claim

  -- SweepExpiredSecrets
  unfoldable pub sweep_expired_secrets : ℕ → Tx Unit
  sweep_expired_secrets now = do
    update_where env handoffs
        (λ h. ltb h.expires_at now && is_none h.fetched_at && h.envelope_json /= "") blank
    pure tt

  -- ApproveSecretHandoff
  unfoldable pub approve_secret_handoff : String → String → ℕ → Tx Unit
  approve_secret_handoff id approver now = do
    n ←
        update_where env handoffs
          (λ h. h.id == id && is_none h.approved_at && is_none h.fetched_at && leb now h.expires_at)
          (λ h. record h { approved_at = some now; approved_by = approver })
    if nat_eq n 0 then fail not_approvable else pure tt
