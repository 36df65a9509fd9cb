-- ===== src/Engine/Statements.antt =====
-- One statement, the clock, fresh identifiers, and gorm's Transaction.
use mcp_symposium.Prelude.{ℕ, String, if◌then◌else◌}
use mcp_symposium.Models.{Db}
use mcp_symposium.Engine.Defs.{Env, driver, Result, ok, err, World, tick, Tx}

module _ {A : Type 0} where
  -- a statement that was refused, or that failed, has written nothing
  abbrev pub settle : World → Result (A × Db) → Result A × World
  settle w (ok (a, d)) = (ok a, record (tick w) { db = d })
  settle w (err e) = (err e, tick w)

module _ (env : Env) where
  -- time.Now()
  unfoldable pub now : Tx ℕ
  now w = (ok (env.clock w.step), tick w)

  -- uuid.NewString()
  unfoldable pub new_uuid : Tx String
  new_uuid w = (ok (env.fresh w.step), tick w)

module _ {A : Type 0} (env : Env) where
  unfoldable pub statement : (Db → Result (A × Db)) → Tx A
  statement f w = if env.fails w.step then (err driver, tick w) else settle w (f w.db)

  abbrev pub commit : World → Result A → World → Result A × World
  commit start (ok a) w =
      if env.fails w.step then (err driver, record (tick w) { db = start.db }) else (ok a, tick w)
  commit start (err e) w = (err e, record w { db = start.db })

  -- db.Transaction: an error of the body, of BEGIN or of COMMIT leaves the tables as they were
  unfoldable pub transaction : Tx A → Tx A
  transaction m w =
      if env.fails w.step then (err driver, tick w) else (let (r, w') = m (tick w) in commit w r w')
