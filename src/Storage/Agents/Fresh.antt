-- ===== src/Storage/Agents/Fresh.antt =====
-- A token that was just issued admits its actor.
use mcp_symposium.Prelude.{
  ℕ, suc, String, ◌≡◌, refl, Option, none, some, inl, inr, arith, ◌==◌, Option-cases, find, eq_iff,
  eq_refl,
}
use mcp_symposium.Prelude.Rows.{find-append_new, any_mono}
use mcp_symposium.Models.{Actor, AgentCredential, Db}
use mcp_symposium.Engine.{Env, World, ok, pure, attempt, ◌>>=◌, now}
use mcp_symposium.Engine.Keeps.{Keeps, Keeps-now, Keeps-new_uuid}
use mcp_symposium.Engine.Tables.{first_where, update_where}
use mcp_symposium.Engine.Ensures.{
  Ensures, Outcome, Outcome-mono, Ensures-bind, Ensures-Keeps, Ensures-pure, Ensures-create,
}
use mcp_symposium.Engine.Transactions.{Works}
use mcp_symposium.Storage.Schema.{credentials}
use mcp_symposium.Storage.Agents.{Secrets, is_live, or_invalid, authenticate, issue, draw_token}
use mcp_symposium.Storage.Agents.Access.{live}

draw-Keeps : {P : Db → Type 0} (env : Env) (secrets : Secrets) → Keeps P (draw_token env secrets)
unfolding draw_token
draw-Keeps env secrets = record {
  at = λ w h. elim (Option-cases (secrets.draw w.step)) [
    | inl dry ↦ rw (dry, draw_token) h
    | inr (s, got) ↦ rw (got, draw_token) h
  ];
}

module _ (env : Env) (secrets : Secrets) (actor_id : String) (a : Actor) where
  abbrev actor_row : Db → Option Actor
  actor_row d = find (λ x. x.id == actor_id) d.actors

  -- The token is live, for the actor.
  abbrev Opens : String → Db → Type 0
  Opens raw d =
      (actor_row d ≡ some a)
      × ((c : AgentCredential) × (live secrets raw d ≡ some c) × (c.actor_id ≡ actor_id))

  issue-Opens : Ensures (λ d. actor_row d ≡ some a) (issue env secrets actor_id) Opens
  unfolding issue
  issue-Opens = Ensures-bind _ _ (Ensures-Keeps _ (draw-Keeps env secrets)) λ raw.
      Ensures-bind _ _ (Ensures-Keeps _ (Keeps-new_uuid env)) λ id.
        Ensures-bind _ _ (Ensures-Keeps _ (Keeps-now env)) λ at.
          Ensures-bind _ _
            (Ensures-create env credentials (drawn raw id at) {Q = Opens raw} (λ d h fresh. (
              h,
              (
                drawn raw id at,
                find-append_new (is_live (secrets.hash raw)) d.credentials (drawn raw id at)
                    (any_mono (credentials.clash (drawn raw id at)) (is_live (secrets.hash raw))
                      (λ x e.
                        ground (
                          arith,
                          eq_iff x.token_hash (secrets.hash raw),
                          eq_refl (secrets.hash raw),
                        ))
                      d.credentials fresh)
                    (rw (eq_refl (secrets.hash raw)) refl),
                refl,
              ),
            )))
            λ _. Ensures-pure raw (λ d h. h)
    where
      drawn : String → String → ℕ → AgentCredential
      drawn raw id at = record {
        id = id;
        actor_id = actor_id;
        token_hash = secrets.hash raw;
        label = "";
        created_at = at;
        revoked_at = none;
        last_used_at = none;
      }

  Opens-runs :
      (works : Works env) (raw : String) (v : World)
      → Opens raw v.db
      → (authenticate env secrets raw v).0 ≡ ok a
  unfolding authenticate ◌>>=◌ first_where or_invalid now attempt update_where pure
  Opens-runs works raw v h =
      let (there, owner) = h in
      let (c, here, same) = owner in
      rw (works v.step, here, works (suc (suc v.step)), works (suc (suc (suc v.step))), same, there)
        refl

  -- While the driver works: a token that Issue returns for an actor of the table
  -- authenticates as that actor at once.
  pub issue-authenticate :
      (works : Works env) (w : World)
      → actor_row w.db ≡ some a
      → Outcome
          (λ raw d. (s : ℕ) → (authenticate env secrets raw (record { db = d; step = s })).0 ≡ ok a)
          (issue env secrets actor_id w)
  issue-authenticate works w here =
      Outcome-mono Opens
        (λ raw d. (s : ℕ) → (authenticate env secrets raw (record { db = d; step = s })).0 ≡ ok a)
        (issue env secrets actor_id w)
        (λ raw d h s. Opens-runs works raw (record { db = d; step = s }) h) (issue-Opens.at w here)
