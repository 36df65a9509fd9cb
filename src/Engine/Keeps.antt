-- ===== src/Engine/Keeps.antt =====
-- Invariants of the tables: what every way of building an action keeps, whatever the driver does.
use mcp_symposium.Prelude.{
  Bool, true, false, not, ◌&&◌, ◌≡◌, inl, inr, [], ◌∷◌, ◌++◌, some, none, Option, if◌then◌else◌,
  Bool-cases, select, find, any, rewrite, count,
}
use mcp_symposium.Models.{Db}
use mcp_symposium.Engine.Defs.{
  Env, Error, Result, ok, err, World, tick, Tx, pure, fail, attempt, ◌>>=◌, continue,
}
use mcp_symposium.Engine.Statements.{statement, transaction, now, new_uuid, settle, commit}
use mcp_symposium.Engine.Tables.{
  Table, find_where, first_where, count_where, create, create_or_ignore, update_where, delete_where,
  upsert, create_or_ignore_on, found,
}

-- Whether `m` returns a value or an error, the tables keep `P`.
pub record Keeps {A : Type 0} (P : Db → Type 0) (m : Tx A) : Type 0 where
  pub at : (w : World) → P w.db → P (m w).1.db

-- What a statement leaves if it does not fail.
abbrev pub After : {A : Type 0} → (Db → Type 0) → Result (A × Db) → Type 0
After P (ok (a, d)) = P d
After P (err e) = Unit

settle-Keeps :
    {A : Type 0} (P : Db → Type 0) (w : World) (r : Result (A × Db))
    → After P r
    → P w.db
    → P (settle w r).1.db
settle-Keeps P w (ok (a, d)) k h = k
settle-Keeps P w (err e) k h = h

commit-Keeps :
    {A : Type 0} (P : Db → Type 0) (env : Env) (start : World) (r : Result A) (w : World)
    → P start.db
    → P w.db
    → P (commit env start r w).1.db
commit-Keeps P env start (err e) w h k = h
commit-Keeps P env start (ok a) w h k = elim (Bool-cases (env.fails w.step)) [
  | inl down ↦ rw down h
  | inr up ↦ rw up k
]

module _ {P : Db → Type 0} where
  pub Keeps-pure : {A : Type 0} (a : A) → Keeps P (pure a)
  unfolding pure
  Keeps-pure a = record { at = λ w h. h }

  pub Keeps-fail : {A : Type 0} (e : Error) → Keeps P (fail {A = A} e)
  unfolding fail
  Keeps-fail e = record { at = λ w h. h }

  pub Keeps-attempt : {A : Type 0} (m : Tx A) → Keeps P m → Keeps P (attempt m)
  unfolding attempt
  Keeps-attempt m k = record { at = λ w h. k.at w h }

  continue-Keeps :
      {A B : Type 0} (r : Result A) (f : A → Tx B) (w : World)
      → ((a : A) → Keeps P (f a))
      → P w.db
      → P (continue r f w).1.db
  continue-Keeps (ok a) f w k h = (k a).at w h
  continue-Keeps (err e) f w k h = h

  pub Keeps-bind :
      {A B : Type 0} (m : Tx A) (f : A → Tx B)
      → Keeps P m
      → ((a : A) → Keeps P (f a))
      → Keeps P (m >>= f)
  unfolding ◌>>=◌
  Keeps-bind m f km kf = record {
    at = λ w h. let (r, w') = m w in continue-Keeps r f w' kf (km.at w h);
  }

  pub Keeps-if :
      {A : Type 0} (b : Bool) (m n : Tx A) → Keeps P m → Keeps P n → Keeps P (if b then m else n)
  Keeps-if true m n km kn = km
  Keeps-if false m n km kn = kn

  pub Keeps-now : (env : Env) → Keeps P (now env)
  unfolding now
  Keeps-now env = record { at = λ w h. h }

  pub Keeps-new_uuid : (env : Env) → Keeps P (new_uuid env)
  unfolding new_uuid
  Keeps-new_uuid env = record { at = λ w h. h }

  pub Keeps-statement :
      {A : Type 0} (env : Env) (f : Db → Result (A × Db))
      → ((d : Db) → P d → After P (f d))
      → Keeps P (statement env f)
  unfolding statement
  Keeps-statement env f k = record {
    at = λ w h. elim (Bool-cases (env.fails w.step)) [
      | inl down ↦ rw down h
      | inr up ↦ rw up (settle-Keeps P w (f w.db) (k w.db h) h)
    ];
  }

  pub Keeps-transaction :
      {A : Type 0} (env : Env) (m : Tx A) → Keeps P m → Keeps P (transaction env m)
  unfolding transaction
  Keeps-transaction env m k = record {
    at = λ w h. elim (Bool-cases (env.fails w.step)) [
      | inl down ↦ rw down h
      | inr up ↦ rw up (let (r, w') = m (tick w) in commit-Keeps P env w r w' h (k.at (tick w) h))
    ];
  }

After-found :
    {Row : Type 0} (P : Db → Type 0) (env : Env) (t : Table Row) (d : Db) (o : Option Row)
    → P d
    → After P (found env t d o)
After-found P env t d none h = tt
After-found P env t d (some r) h = h

-- The statements on one table. A read keeps everything; a write keeps what its new rows keep.
module _ {Row : Type 0} {P : Db → Type 0} (env : Env) (t : Table Row) where
  pub Keeps-find_where : (p : Row → Bool) → Keeps P (find_where env t p)
  unfolding find_where
  Keeps-find_where p = Keeps-statement env (λ d. ok (select p (t.rows d), d)) (λ d h. h)

  pub Keeps-first_where : (p : Row → Bool) → Keeps P (first_where env t p)
  unfolding first_where
  Keeps-first_where p = Keeps-statement env _ (λ d h. After-found P env t d (find p (t.rows d)) h)

  pub Keeps-count_where : (p : Row → Bool) → Keeps P (count_where env t p)
  unfolding count_where
  Keeps-count_where p = Keeps-statement env (λ d. ok (count p (t.rows d), d)) (λ d h. h)

  -- the row stands beside none that clashes with it
  pub Keeps-create :
      (r : Row)
      → ((d : Db) → P d → any (t.clash r) (t.rows d) ≡ false → P (t.put (t.rows d ++ r ∷ []) d))
      → Keeps P (create env t r)
  unfolding create
  Keeps-create r k = Keeps-statement env _ λ d h. elim (Bool-cases (any (t.clash r) (t.rows d))) [
    | inl clash ↦ rw clash tt
    | inr fresh ↦ rw fresh (k d h fresh)
  ]

  pub Keeps-create_or_ignore :
      (r : Row)
      → ((d : Db) → P d → any (t.clash r) (t.rows d) ≡ false → P (t.put (t.rows d ++ r ∷ []) d))
      → Keeps P (create_or_ignore env t r)
  unfolding create_or_ignore
  Keeps-create_or_ignore r k = Keeps-statement env _ λ d h.
      elim (Bool-cases (any (t.clash r) (t.rows d))) [
        | inl clash ↦ rw clash h
        | inr fresh ↦ rw fresh (k d h fresh)
      ]

  pub Keeps-update_where :
      (p : Row → Bool) (f : Row → Row)
      → ((d : Db) → P d → P (t.put (rewrite p f (t.rows d)) d))
      → Keeps P (update_where env t p f)
  unfolding update_where
  Keeps-update_where p f k =
      Keeps-statement env (λ d. ok (count p (t.rows d), t.put (rewrite p f (t.rows d)) d)) k

  pub Keeps-delete_where :
      (p : Row → Bool)
      → ((d : Db) → P d → P (t.put (select (λ r. not (p r)) (t.rows d)) d))
      → Keeps P (delete_where env t p)
  unfolding delete_where
  Keeps-delete_where p k =
      Keeps-statement env (λ d. ok (tt, t.put (select (λ r. not (p r)) (t.rows d)) d)) k

  pub Keeps-create_or_ignore_on :
      (same : Row → Row → Bool) (r : Row)
      → ((d : Db) → P d → P (t.put (t.rows d ++ r ∷ []) d))
      → Keeps P (create_or_ignore_on env t same r)
  unfolding create_or_ignore_on
  Keeps-create_or_ignore_on same r k = Keeps-statement env _ λ d h.
      elim (Bool-cases (any (same r) (t.rows d))) [
        | inl taken ↦ rw taken h
        | inr free ↦ elim (Bool-cases (any (t.clash r) (t.rows d))) [
          | inl clash ↦ rw (free, clash) tt
          | inr fresh ↦ rw (free, fresh) (k d h)
        ]
      ]

  pub Keeps-upsert :
      (same : Row → Row → Bool) (merge : Row → Row) (r : Row)
      → ((d : Db) → P d → P (t.put (rewrite (same r) merge (t.rows d)) d))
      → ((d : Db) → P d → P (t.put (t.rows d ++ r ∷ []) d))
      → Keeps P (upsert env t same merge r)
  unfolding upsert
  Keeps-upsert same merge r old new = Keeps-statement env _ λ d h.
      elim (Bool-cases (any (λ x. not (same r x) && t.clash r x) (t.rows d))) [
        | inl clash ↦ rw clash tt
        | inr free ↦ elim (Bool-cases (any (same r) (t.rows d))) [
          | inl found ↦ rw (free, found) (old d h)
          | inr fresh ↦ rw (free, fresh) (new d h)
        ]
      ]

pub ruleset keeps_rules = (
  Keeps-pure, Keeps-fail, Keeps-attempt, Keeps-bind, Keeps-if, Keeps-now, Keeps-new_uuid,
  Keeps-transaction, Keeps-find_where, Keeps-first_where, Keeps-count_where,
)
