-- ===== src/Engine/Succeeds.antt =====
-- An action that succeeds has met no refusal of the driver: it does the same when nothing is refused.
use mcp_symposium.Prelude.{Bool, false, ◌≡◌, refl, inl, inr, Bool-cases, select, count, rewrite}
use mcp_symposium.Models.{Db}
use mcp_symposium.Engine.Defs.{Env, Result, ok, err, World, tick, Tx, ◌>>=◌, continue}
use mcp_symposium.Engine.Statements.{statement, transaction, now, commit}
use mcp_symposium.Engine.Tables.{Table, find_where, update_where}

-- the same world with a driver that refuses nothing
abbrev pub unrefused : Env → Env
unrefused env = record env { fails = λ n. false }

-- `m'` does what `m` does whenever `m` succeeds
pub record Follows {A : Type 0} (m m' : Tx A) : Type 0 where
  pub at : (w : World) {a : A} → (m w).0 ≡ ok a → m' w ≡ m w

module _ {A : Type 0} where
  pub Follows-same : (m : Tx A) → Follows m m
  Follows-same m = record { at = λ w h. refl }

  continue-Follows :
      {B : Type 0} (r : Result A) (f f' : A → Tx B) (w : World) {b : B}
      → ((a : A) → Follows (f a) (f' a))
      → (continue r f w).0 ≡ ok b
      → (continue r f' w ≡ continue r f w) × (a : A) × (r ≡ ok a)
  continue-Follows (ok a) f f' w k h = ((k a).at w h, a, refl)
  continue-Follows (err e) f f' w k h = cc

  pub Follows-bind :
      {B : Type 0} (m m' : Tx A) (f f' : A → Tx B)
      → Follows m m'
      → ((a : A) → Follows (f a) (f' a))
      → Follows (m >>= f) (m' >>= f')
  unfolding ◌>>=◌
  Follows-bind m m' f f' km kf = record {
    at = λ w h.
        let (same, a, done) = continue-Follows (m w).0 f f' (m w).1 kf h in rw (km.at w done) same;
  }

  pub Follows-statement :
      (env : Env) (f : Db → Result (A × Db))
      → Follows (statement env f) (statement (unrefused env) f)
  unfolding statement
  Follows-statement env f = record {
    at = λ w h. elim (Bool-cases (env.fails w.step)) [
      | inl down ↦ cc (rw down at h)
      | inr up ↦ rw up refl
    ];
  }

  commit-Follows :
      (env : Env) (start w : World) (r : Result A) {a : A}
      → (commit env start r w).0 ≡ ok a
      → (commit (unrefused env) start r w ≡ commit env start r w) × (b : A) × (r ≡ ok b)
  commit-Follows env start w (err e) h = cc
  commit-Follows env start w (ok b) h = elim (Bool-cases (env.fails w.step)) [
    | inl down ↦ cc (rw down at h)
    | inr up ↦ (rw up refl, b, refl)
  ]

  pub Follows-transaction :
      (env : Env) (m m' : Tx A)
      → Follows m m'
      → Follows (transaction env m) (transaction (unrefused env) m')
  unfolding transaction
  Follows-transaction env m m' k = record {
    at = λ w h. elim (Bool-cases (env.fails w.step)) [
      | inl down ↦ cc (rw down at h)
      | inr up ↦
          let (same, b, done) = commit-Follows env w (m (tick w)).1 (m (tick w)).0 (rw up at h) in
          rw (up, k.at (tick w) done) same
    ];
  }

module _ (env : Env) where
  pub Follows-now : Follows (now env) (now (unrefused env))
  unfolding now
  Follows-now = record { at = λ w h. refl }

  module _ {Row : Type 0} (t : Table Row) (p : Row → Bool) where
    pub Follows-find : Follows (find_where env t p) (find_where (unrefused env) t p)
    unfolding find_where
    Follows-find = Follows-statement env (λ d. ok (select p (t.rows d), d))

    pub Follows-update :
        (f : Row → Row) → Follows (update_where env t p f) (update_where (unrefused env) t p f)
    unfolding update_where
    Follows-update f =
        Follows-statement env (λ d. ok (count p (t.rows d), t.put (rewrite p f (t.rows d)) d))
