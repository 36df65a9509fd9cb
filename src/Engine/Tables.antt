-- ===== src/Engine/Tables.antt =====
-- The statements on one table, for the WHERE clauses and columns that the source names.
use mcp_symposium.Prelude.{
  ℕ, Bool, not, ◌&&◌, Option, none, some, List, [], ◌∷◌, ◌++◌, if◌then◌else◌, select, find, count,
  any, rewrite,
}
use mcp_symposium.Models.{Db}
use mcp_symposium.Engine.Defs.{Env, not_found, duplicate, Result, ok, err, Tx}
use mcp_symposium.Engine.Statements.{statement}

-- A table of the database, with the rows that a new row may not stand beside: those that agree
-- with it on the primary key or on a unique index.
pub record Table (Row : Type 0) : Type 0 where
  pub rows : Db → List Row
  pub put : List Row → Db → Db
  pub clash : Row → Row → Bool

module _ {Row : Type 0} (env : Env) (t : Table Row) where
  -- Find with a WHERE clause
  unfoldable pub find_where : (Row → Bool) → Tx (List Row)
  unfolding statement
  find_where p = statement env (λ d. ok (select p (t.rows d), d))

  abbrev pub found : Db → Option Row → Result (Row × Db)
  found d none = err not_found
  found d (some r) = ok (r, d)

  -- First with a WHERE clause
  unfoldable pub first_where : (Row → Bool) → Tx Row
  unfolding statement
  first_where p = statement env (λ d. found d (find p (t.rows d)))

  unfoldable pub count_where : (Row → Bool) → Tx ℕ
  unfolding statement
  count_where p = statement env (λ d. ok (count p (t.rows d), d))

  unfoldable pub create : Row → Tx Unit
  unfolding statement
  create r = statement env λ d.
      if any (t.clash r) (t.rows d) then err duplicate else ok (tt, t.put (t.rows d ++ r ∷ []) d)

  -- Create under OnConflict DoNothing: how many rows were written
  unfoldable pub create_or_ignore : Row → Tx ℕ
  unfolding statement
  create_or_ignore r =
      statement env
        λ d. if any (t.clash r) (t.rows d) then ok (0, d) else ok (1, t.put (t.rows d ++ r ∷ []) d)

  -- Create under OnConflict DoNothing for the columns of `same`: another clash is an error
  unfoldable pub create_or_ignore_on : (Row → Row → Bool) → Row → Tx ℕ
  unfolding statement
  create_or_ignore_on same r = statement env λ d.
      if any (same r) (t.rows d)
      then ok (0, d)
      else if any (t.clash r) (t.rows d)
      then err duplicate
      else ok (1, t.put (t.rows d ++ r ∷ []) d)

  -- Create under OnConflict DoUpdates: `same` is the conflict's columns, `merge` the assignments
  unfoldable pub upsert : (Row → Row → Bool) → (Row → Row) → Row → Tx Unit
  unfolding statement
  upsert same merge r = statement env λ d.
      if any (λ x. not (same r x) && t.clash r x) (t.rows d)
      then err duplicate
      else if any (same r) (t.rows d)
      then ok (tt, t.put (rewrite (same r) merge (t.rows d)) d)
      else ok (tt, t.put (t.rows d ++ r ∷ []) d)

  -- UPDATE with a WHERE clause: how many rows matched
  unfoldable pub update_where : (Row → Bool) → (Row → Row) → Tx ℕ
  unfolding statement
  update_where p f = statement env λ d. ok (count p (t.rows d), t.put (rewrite p f (t.rows d)) d)

  unfoldable pub delete_where : (Row → Bool) → Tx Unit
  unfolding statement
  delete_where p = statement env (λ d. ok (tt, t.put (select (λ r. not (p r)) (t.rows d)) d))
