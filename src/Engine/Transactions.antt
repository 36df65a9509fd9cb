-- ===== src/Engine/Transactions.antt =====
-- What gorm's Transaction promises, on every answer of the driver.
use mcp_symposium.Prelude.{Bool, true, false, ◌≡◌, refl, inl, inr, Bool-cases, ℕ}
use mcp_symposium.Engine.Defs.{Env, Result, ok, err, World, tick, Tx}
use mcp_symposium.Engine.Statements.{transaction, commit}

-- The driver refuses no statement.
abbrev pub Works : Env → Type 0
Works env = (n : ℕ) → env.fails n ≡ false

abbrev pub is_err : {A : Type 0} → Result A → Bool
is_err (ok a) = false
is_err (err e) = true

module _ {A : Type 0} (env : Env) where
  commit-err :
      (start w : World) (r : Result A)
      → is_err (commit env start r w).0 ≡ true
      → (commit env start r w).1.db ≡ start.db
  commit-err start w (err e) h = refl
  commit-err start w (ok a) h = elim (Bool-cases (env.fails w.step)) [
    | inl down ↦ rw down
    | inr up ↦ cc (rw up at h)
  ]

  -- A transaction that returns an error has changed no table.
  pub transaction-err :
      (m : Tx A) (w : World)
      → is_err (transaction env m w).0 ≡ true
      → (transaction env m w).1.db ≡ w.db
  unfolding transaction
  transaction-err m w h = elim (Bool-cases (env.fails w.step)) [
    | inl down ↦ rw down
    | inr up ↦ rw up (let (r, w') = m (tick w) in commit-err w w' r (rw up at h))
  ]

  pub transaction-ok :
      Works env
      → (m : Tx A) (w : World) {a : A} → (m (tick w)).0 ≡ ok a
      → transaction env m w ≡ (ok a, tick (m (tick w)).1)
  unfolding transaction
  transaction-ok works m w e = rw (works w.step, e, works (m (tick w)).1.step)

  commit_err :
      (start w : World) (r : Result A) → is_err r ≡ true → is_err (commit env start r w).0 ≡ true
  commit_err start w (err e) h = refl
  commit_err start w (ok a) h = cc

  -- A transaction whose body returns an error returns an error.
  pub transaction-fails :
      Works env
      → (m : Tx A) (w : World) → is_err (m (tick w)).0 ≡ true
      → is_err (transaction env m w).0 ≡ true
  unfolding transaction
  transaction-fails works m w h =
      rw (works w.step) (let (r, w') = m (tick w) in commit_err w w' r h)
