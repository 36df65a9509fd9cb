-- ===== src/Storage/Handoff/Once.antt =====
-- An envelope is handed out once at most, whatever the calls and whatever the driver refuses.
use mcp_symposium.Prelude.{
  ℕ, suc, ◌+◌, ◌≤◌, String, Bool, true, false, ◌≡◌, refl, sym, ap, ◌∙◌, ◌&&◌, none, some, List, [],
  ◌∷◌, inl, inr, arith, ◌==◌, if◌then◌else◌, Bool-cases, Option-cases, eq_iff,
}
use mcp_symposium.Models.{SecretHandoff, Db}
use mcp_symposium.Engine.{Env, World, tick, Result, ok, ◌>>=◌}
use mcp_symposium.Engine.Tables.{first_where, update_where}
use mcp_symposium.Storage.Handoff.{
  FetchReply, released, claimed, blank, fetch_secret_handoff, release, classify, after_claim,
  after_read, create_secret_handoff, sweep_expired_secrets, approve_secret_handoff,
}
use mcp_symposium.Storage.Handoff.Spec.{row, HasKeys, may_release}
use mcp_symposium.Storage.Handoff.Steps.{
  after_update, after_claim-none, fetch_claims, fetch_found, claim-Leaves, release_lem,
}
use mcp_symposium.Storage.Handoff.Invariant.{
  fetch-Keeps, create-Keeps, sweep-Keeps, approve-Keeps, HasKeys-updated, HasKeys-added, IsSpent,
  IsSpent-updated, IsSpent-added,
}

abbrev pub is_released : Result FetchReply → Bool
is_released (ok (released h e)) = true
is_released _ = false

-- What a fetch that hands an envelope out has met and left.
pub record Released (id actor_id : String) (now : ℕ) (r : Result FetchReply) (d d' : Db)
    : Type 0 where
  pub handoff : SecretHandoff
  pub here : row id d ≡ some handoff
  pub may : may_release actor_id now handoff ≡ true
  pub reply : r ≡ ok (released (blank (claimed actor_id now handoff)) handoff.envelope_json)
  pub left : row id d' ≡ some (blank (claimed actor_id now handoff))

module _ (env : Env) (id actor_id : String) (now : ℕ) (w : World) where
  refused_first :
      env.fails w.step ≡ true → is_released (fetch_secret_handoff env id actor_id now w).0 ≡ false
  unfolding fetch_secret_handoff after_claim ◌>>=◌ update_where
  refused_first down = rw down

  pub refused_second :
      env.fails w.step ≡ false
      → env.fails (suc w.step) ≡ true
      → is_released (fetch_secret_handoff env id actor_id now w).0 ≡ false
  unfolding after_claim after_read ◌>>=◌ first_where
  refused_second up down = rw (fetch_claims env id actor_id now w up, down)

  classify_refuses :
      (h : SecretHandoff) (v : World) → is_released (classify env id actor_id h v).0 ≡ false
  unfolding classify ◌>>=◌ update_where
  classify_refuses h v = ground arith

  release_refused :
      (h : SecretHandoff) (v : World)
      → env.fails v.step ≡ true
      → is_released (release env id h v).0 ≡ false
  unfolding release ◌>>=◌ update_where
  release_refused h v down = rw down

  found-Released :
      (h : SecretHandoff)
      → env.fails w.step ≡ false
      → env.fails (suc w.step) ≡ false
      → row id w.db ≡ some h
      → let r = fetch_secret_handoff env id actor_id now w in
        HasKeys w.db → is_released r.0 ≡ true → Released id actor_id now r.0 w.db r.1.db
  found-Released h up up' here keys out = elim (Bool-cases (may_release actor_id now h)) [
    | inl may ↦
        let (there, runs) = fetch_found env id actor_id now w h true up up' keys here may in
        elim (Bool-cases (env.fails (suc (suc w.step)))) [
          | inl down ↦ cc (release_refused (claimed actor_id now h) (tick v) down)
          | inr up'' ↦
              let (reply, left) = release_lem env id (claimed actor_id now h) (tick v) up'' there in
              record {
                handoff = h;
                here = here;
                may = may;
                reply = rw runs reply;
                left = rw runs left.0;
              }
        ]
    | inr stays ↦
        let (there, runs) = fetch_found env id actor_id now w h false up up' keys here stays in
        cc (classify_refuses h (tick v))
  ]
    where
      v : World
      v = after_update env id actor_id now w

  missing_refused :
      env.fails w.step ≡ false
      → env.fails (suc w.step) ≡ false
      → row id w.db ≡ none
      → is_released (fetch_secret_handoff env id actor_id now w).0 ≡ false
  missing_refused up up' missing = rw (
    fetch_claims env id actor_id now w up,
    after_claim-none env id actor_id _ (after_update env id actor_id now w) up'
        ((claim-Leaves env id actor_id now w).0 ∙ rw missing),
  )

  -- If ids are a primary key: a fetch that hands an envelope out, with any driver, hands out that of
  -- the handoff with its id, which may go to this actor at this time, and leaves it fetched and blank.
  pub fetch-Released :
      let r = fetch_secret_handoff env id actor_id now w in
      HasKeys w.db → is_released r.0 ≡ true → Released id actor_id now r.0 w.db r.1.db
  fetch-Released keys out = elim (Bool-cases (env.fails w.step)) [
    | inl down ↦ cc (refused_first down)
    | inr up ↦ elim (Bool-cases (env.fails (suc w.step))) [
      | inl down ↦ cc (refused_second up down)
      | inr up' ↦ elim (Option-cases (row id w.db)) [
        | inl missing ↦ cc (missing_refused up up' missing)
        | inr (h, here) ↦ found-Released h up up' here keys out
      ]
    ]
  ]

pub data Call : Type 0 where
  fetch : String → String → ℕ → Call
  create : SecretHandoff → Call
  approve : String → String → ℕ → Call
  sweep : ℕ → Call

pub call : Env → Call → World → World
call env (fetch j actor_id now) w = (fetch_secret_handoff env j actor_id now w).1
call env (create h) w = (create_secret_handoff env h w).1
call env (approve j approver now) w = (approve_secret_handoff env j approver now w).1
call env (sweep now) w = (sweep_expired_secrets env now w).1

-- The call hands out the envelope of this handoff.
pub hands_out : Env → String → Call → World → Bool
hands_out env id (fetch j actor_id now) w =
    j == id && is_released (fetch_secret_handoff env j actor_id now w).0
hands_out env id _ w = false

-- How many of the calls hand out the envelope of this handoff.
pub releases : Env → String → List Call → World → ℕ
unfolding call hands_out
releases env id [] w = 0
releases env id (c ∷ cs) w =
    (if hands_out env id c w then 1 else 0) + releases env id cs (call env c w)

module _ (env : Env) where
  HasKeys-call : (c : Call) (w : World) → HasKeys w.db → HasKeys (call env c w).db
  unfolding call
  HasKeys-call (fetch j actor_id now) =
      (fetch-Keeps HasKeys-updated HasKeys-added env j actor_id now).at
  HasKeys-call (create h) = (create-Keeps HasKeys-updated HasKeys-added env h).at
  HasKeys-call (approve j approver now) =
      (approve-Keeps HasKeys-updated HasKeys-added env j approver now).at
  HasKeys-call (sweep now) = (sweep-Keeps HasKeys-updated HasKeys-added env now).at

module _ (env : Env) (id : String) where
  IsSpent-call : (c : Call) (w : World) → IsSpent id w.db → IsSpent id (call env c w).db
  unfolding call
  IsSpent-call (fetch j actor_id now) =
      (fetch-Keeps (IsSpent-updated id) (IsSpent-added id) env j actor_id now).at
  IsSpent-call (create h) = (create-Keeps (IsSpent-updated id) (IsSpent-added id) env h).at
  IsSpent-call (approve j approver now) =
      (approve-Keeps (IsSpent-updated id) (IsSpent-added id) env j approver now).at
  IsSpent-call (sweep now) = (sweep-Keeps (IsSpent-updated id) (IsSpent-added id) env now).at

  -- what was fetched is not handed out again
  spent_refused :
      (c : Call) (w : World) → HasKeys w.db → IsSpent id w.db → hands_out env id c w ≡ false
  unfolding hands_out may_release
  spent_refused (fetch j actor_id now) w keys (h, here, spent) =
      elim (Bool-cases (j == id && is_released (fetch_secret_handoff env j actor_id now w).0)) [
        | inl out ↦
            let e : j ≡ id = ground (arith, eq_iff j id) in
            let r = fetch-Released env j actor_id now w keys (ground arith) in
            absurd (ground (arith, ap (λ x. row x w.db) e, r.here, r.may, here, spent))
        | inr stays ↦ stays
      ]
  spent_refused _ w keys spent = refl

  -- what is handed out was fetched
  hands_out-IsSpent :
      (c : Call) (w : World)
      → HasKeys w.db
      → hands_out env id c w ≡ true
      → IsSpent id (call env c w).db
  unfolding hands_out call
  hands_out-IsSpent (fetch j actor_id now) w keys out =
      let e : j ≡ id = ground (arith, eq_iff j id) in
      let r = fetch-Released env j actor_id now w keys (ground arith) in
      (
        blank (claimed actor_id now r.handoff),
        ap (λ x. row x (fetch_secret_handoff env j actor_id now w).1.db) (sym e) ∙ r.left,
        refl,
      )
  hands_out-IsSpent _ w keys out = cc

  pub releases_spent :
      (cs : List Call) (w : World) → HasKeys w.db → IsSpent id w.db → releases env id cs w ≡ 0
  unfolding releases
  releases_spent [] w keys spent = refl
  releases_spent (c ∷ cs) w keys spent = rw (spent_refused c w keys spent) (
      omega (
        arith,
        releases_spent cs (call env c w) (HasKeys-call env c w keys) (IsSpent-call c w spent),
      ))

  -- Whatever the calls, by whomever and at whatever times, and whichever statements the driver
  -- refuses: the envelope of a handoff is handed out once at most, if the ids were a primary key.
  pub releases-le-one : (cs : List Call) (w : World) → HasKeys w.db → releases env id cs w ≤ 1
  unfolding releases
  releases-le-one [] w keys = omega arith
  releases-le-one (c ∷ cs) w keys = elim (Bool-cases (hands_out env id c w)) [
    | inl out ↦ rw out (
        omega (
          arith,
          releases_spent cs (call env c w) (HasKeys-call env c w keys)
              (hands_out-IsSpent c w keys out),
        ))
    | inr stays ↦
        rw stays (omega (arith, releases-le-one cs (call env c w) (HasKeys-call env c w keys)))
  ]
