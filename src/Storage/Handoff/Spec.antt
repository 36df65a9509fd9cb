-- ===== src/Storage/Handoff/Spec.antt =====
-- What FetchSecretHandoff promises about one handoff, without tables and statements.
use mcp_symposium.Prelude.{
  ℕ, String, Bool, false, ◌≡◌, ◌&&◌, ◌||◌, Option, none, some, ◌==◌, ◌/=◌, leb, is_some, is_none,
  if◌then◌else◌, find,
}
use mcp_symposium.Prelude.Rows.{Keyed}
use mcp_symposium.Models.{SecretHandoff, Db}
use mcp_symposium.Engine.{
  Error, secret_not_found, secret_already_fetched, secret_foreign_fetch, secret_needs_approval,
}
use mcp_symposium.Storage.Handoff.{FetchReply, released, refused, claimed, blank, foreign}

-- the handoff with this id
abbrev pub row : String → Db → Option SecretHandoff
row id d = find (λ h. h.id == id) d.handoffs

-- Ids are a primary key.
abbrev pub HasKeys : Db → Type 0
HasKeys d = Keyed (λ (h : SecretHandoff). h.id) d.handoffs

-- A handoff may go to this actor at this time.
unfoldable pub may_release : String → ℕ → SecretHandoff → Bool
may_release actor_id now h =
    h.to_actor_id == actor_id
    && is_none h.fetched_at
    && h.envelope_json /= ""
    && leb now h.expires_at
    && (h.class /= "admin" || is_some h.approved_at)

-- Why a handoff that may not go is refused, and what of it changes.
unfoldable pub refusal : String → SecretHandoff → Error × SecretHandoff
refusal actor_id h =
    if h.to_actor_id /= actor_id
    then (secret_foreign_fetch, foreign h)
    else if is_some h.fetched_at
    then (secret_already_fetched, h)
    else if h.class == "admin" && is_none h.approved_at
    then (secret_needs_approval, h)
    else (secret_not_found, h)

-- What a fetch answers about the handoff with its id, and what becomes of that handoff.
unfoldable pub fetch_spec : String → ℕ → Option SecretHandoff → FetchReply × Option SecretHandoff
unfolding may_release refusal
fetch_spec actor_id now none = (refused none secret_not_found, none)
fetch_spec actor_id now (some h) =
    if may_release actor_id now h
    then (
      released (blank (claimed actor_id now h)) h.envelope_json,
      some (blank (claimed actor_id now h)),
    )
    else (let (e, h') = refusal actor_id h in (refused (some h) e, some h'))

-- What an action on the handoff with this id leaves: that handoff's new row, and the other rows.
abbrev pub Leaves : String → Db → Option SecretHandoff → Db → Type 0
Leaves id d o d' = (row id d' ≡ o) × ((j : String) → (id == j) ≡ false → row j d' ≡ row j d)
