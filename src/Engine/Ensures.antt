-- ===== src/Engine/Ensures.antt =====
-- What an action that returns a value has made true, whatever the driver does.
use mcp_symposium.Prelude.{
  ℕ, Bool, true, false, not, ◌&&◌, ◌≡◌, some, [], ◌∷◌, ◌++◌, inl, inr, Bool-cases, Option-cases,
  any, find, rewrite, select,
}
use mcp_symposium.Models.{Db}
use mcp_symposium.Engine.Defs.{
  Env, Result, ok, err, World, tick, Tx, pure, attempt, ◌>>=◌, continue,
}
use mcp_symposium.Engine.Statements.{transaction, commit}
use mcp_symposium.Engine.Tables.{
  Table, create, first_where, create_or_ignore, create_or_ignore_on, update_where, delete_where,
  upsert,
}
use mcp_symposium.Engine.Keeps.{Keeps}

abbrev pub Outcome : {A : Type 0} → (A → Db → Type 0) → Result A × World → Type 0
Outcome Q (ok a, w) = Q a w.db
Outcome Q (err e, w) = Unit

pub record Ensures {A : Type 0} (P : Db → Type 0) (m : Tx A) (Q : A → Db → Type 0) : Type 0 where
  pub at : (w : World) → P w.db → Outcome Q (m w)

continue-Outcome :
    {A B : Type 0} (Q : A → Db → Type 0) (R : B → Db → Type 0) (r : Result A) (f : A → Tx B)
    (w : World)
    → Outcome Q (r, w)
    → ((a : A) → Ensures (Q a) (f a) R)
    → Outcome R (continue r f w)
continue-Outcome Q R (ok a) f w h k = (k a).at w h
continue-Outcome Q R (err e) f w h k = tt

commit-Outcome :
    {A : Type 0} (env : Env) (Q : A → Db → Type 0) (start : World) (r : Result A) (w : World)
    → Outcome Q (r, w)
    → Outcome Q (commit env start r w)
commit-Outcome env Q start (err e) w h = tt
commit-Outcome env Q start (ok a) w h = elim (Bool-cases (env.fails w.step)) [
  | inl down ↦ rw down tt
  | inr up ↦ rw up h
]

module _ {P : Db → Type 0} where
  pub Ensures-bind :
      {A B : Type 0} {Q : A → Db → Type 0} {R : B → Db → Type 0} (m : Tx A) (f : A → Tx B)
      → Ensures P m Q
      → ((a : A) → Ensures (Q a) (f a) R)
      → Ensures P (m >>= f) R
  unfolding ◌>>=◌
  Ensures-bind {Q} {R} m f em ef = record {
    at = λ w h. let (r, w') = m w in continue-Outcome Q R r f w' (em.at w h) ef;
  }

  -- what an action keeps is still there if it returns
  pub Ensures-Keeps : {A : Type 0} (m : Tx A) → Keeps P m → Ensures P m (λ _. P)
  Ensures-Keeps {A} m k = record { at = λ w h. kept (m w) (k.at w h) }
    where
      kept : (r : Result A × World) → P r.1.db → Outcome (λ _. P) r
      kept (ok a, w) h = h
      kept (err e, w) h = tt

  pub Ensures-transaction :
      {A : Type 0} {Q : A → Db → Type 0} (env : Env) (m : Tx A)
      → Ensures P m Q
      → Ensures P (transaction env m) Q
  unfolding transaction
  Ensures-transaction {Q} env m e = record {
    at = λ w h. elim (Bool-cases (env.fails w.step)) [
      | inl down ↦ rw down tt
      | inr up ↦ rw up (let (r, w') = m (tick w) in commit-Outcome env Q w r w' (e.at (tick w) h))
    ];
  }

  pub Ensures-pure :
      {A : Type 0} {Q : A → Db → Type 0} (a : A) → ((d : Db) → P d → Q a d) → Ensures P (pure a) Q
  unfolding pure
  Ensures-pure a q = record { at = λ w h. q w.db h }

  -- a row that was written stands behind the others, and clashes with none of them
  pub Ensures-create :
      {Row : Type 0} (env : Env) (t : Table Row) (r : Row) {Q : Db → Type 0}
      → ((d : Db) → P d → any (t.clash r) (t.rows d) ≡ false → Q (t.put (t.rows d ++ r ∷ []) d))
      → Ensures P (create env t r) (λ _. Q)
  unfolding create
  Ensures-create env t r {Q} q = record {
    at = λ w h. elim (Bool-cases (env.fails w.step)) [
      | inl down ↦ rw down tt
      | inr up ↦ elim (Bool-cases (any (t.clash r) (t.rows w.db))) [
        | inl clash ↦ rw (up, clash) tt
        | inr fresh ↦ rw (up, fresh) (q w.db h fresh)
      ]
    ];
  }

pub Outcome-mono :
    {A : Type 0} (Q R : A → Db → Type 0) (r : Result A × World)
    → ((a : A) (d : Db) → Q a d → R a d)
    → Outcome Q r
    → Outcome R r
Outcome-mono Q R (ok a, w) f h = f a w.db h
Outcome-mono Q R (err e, w) f h = tt

module _ {P : Db → Type 0} where
  pub Ensures-attempt :
      {A : Type 0} {Q : A → Db → Type 0} (m : Tx A)
      → Ensures P m Q
      → Ensures P (attempt m) (λ r d. Outcome Q (r, record { db = d; step = 0 }))
  unfolding attempt
  Ensures-attempt {A} {Q} m e = record { at = λ w h. out (m w) (e.at w h) }
    where
      out : (r : Result A × World) → Outcome Q r → Outcome Q (r.0, record { db = r.1.db; step = 0 })
      out (ok a, w) h = h
      out (err e, w) h = h

  -- the row that was found stands in the table
  pub Ensures-first_where :
      {Row : Type 0} (env : Env) (t : Table Row) (p : Row → Bool)
      → Ensures P (first_where env t p) (λ r d. P d × (find p (t.rows d) ≡ some r))
  unfolding first_where
  Ensures-first_where {Row} env t p = record {
    at = λ w h. elim (Bool-cases (env.fails w.step)) [
      | inl down ↦ rw down tt
      | inr up ↦ elim (Option-cases (find p (t.rows w.db))) [
        | inl missing ↦ rw (up, missing) tt
        | inr (r, here) ↦ rw (up, here) (h, here)
      ]
    ];
  }

  pub Ensures-create_or_ignore :
      {Row : Type 0} (env : Env) (t : Table Row) (r : Row) {Q : Db → Type 0}
      → ((d : Db) → P d → any (t.clash r) (t.rows d) ≡ true → Q d)
      → ((d : Db) → P d → any (t.clash r) (t.rows d) ≡ false → Q (t.put (t.rows d ++ r ∷ []) d))
      → Ensures P (create_or_ignore env t r) (λ _. Q)
  unfolding create_or_ignore
  Ensures-create_or_ignore env t r {Q} old new = record {
    at = λ w h. elim (Bool-cases (env.fails w.step)) [
      | inl down ↦ rw down tt
      | inr up ↦ elim (Bool-cases (any (t.clash r) (t.rows w.db))) [
        | inl clash ↦ rw (up, clash) (old w.db h clash)
        | inr fresh ↦ rw (up, fresh) (new w.db h fresh)
      ]
    ];
  }

  pub Ensures-update_where :
      {Row : Type 0} (env : Env) (t : Table Row) (p : Row → Bool) (f : Row → Row) {Q : Db → Type 0}
      → ((d : Db) → P d → Q (t.put (rewrite p f (t.rows d)) d))
      → Ensures P (update_where env t p f) (λ _. Q)
  unfolding update_where
  Ensures-update_where env t p f q = record {
    at = λ w h. elim (Bool-cases (env.fails w.step)) [
      | inl down ↦ rw down tt
      | inr up ↦ rw up (q w.db h)
    ];
  }

  pub Ensures-delete_where :
      {Row : Type 0} (env : Env) (t : Table Row) (p : Row → Bool) {Q : Db → Type 0}
      → ((d : Db) → P d → Q (t.put (select (λ r. not (p r)) (t.rows d)) d))
      → Ensures P (delete_where env t p) (λ _. Q)
  unfolding delete_where
  Ensures-delete_where env t p q = record {
    at = λ w h. elim (Bool-cases (env.fails w.step)) [
      | inl down ↦ rw down tt
      | inr up ↦ rw up (q w.db h)
    ];
  }

  pub Ensures-upsert :
      {Row : Type 0} (env : Env) (t : Table Row) (same : Row → Row → Bool) (merge : Row → Row)
      (r : Row) {Q : Db → Type 0}
      → ((d : Db)
          → P d
          → any (same r) (t.rows d) ≡ true
          → Q (t.put (rewrite (same r) merge (t.rows d)) d))
      → ((d : Db) → P d → any (same r) (t.rows d) ≡ false → Q (t.put (t.rows d ++ r ∷ []) d))
      → Ensures P (upsert env t same merge r) (λ _. Q)
  unfolding upsert
  Ensures-upsert env t same merge r old new = record {
    at = λ w h. elim (Bool-cases (env.fails w.step)) [
      | inl down ↦ rw down tt
      | inr up ↦ elim (Bool-cases (any (λ x. not (same r x) && t.clash r x) (t.rows w.db))) [
        | inl clash ↦ rw (up, clash) tt
        | inr free ↦ elim (Bool-cases (any (same r) (t.rows w.db))) [
          | inl found ↦ rw (up, free, found) (old w.db h found)
          | inr fresh ↦ rw (up, free, fresh) (new w.db h fresh)
        ]
      ]
    ];
  }

pub Ensures-create_or_ignore_on :
    {P : Db → Type 0} {Row : Type 0} (env : Env) (t : Table Row) (same : Row → Row → Bool) (r : Row)
    {Q : ℕ → Db → Type 0}
    → ((d : Db) → P d → any (same r) (t.rows d) ≡ true → Q 0 d)
    → ((d : Db) → P d → any (same r) (t.rows d) ≡ false → Q 1 (t.put (t.rows d ++ r ∷ []) d))
    → Ensures P (create_or_ignore_on env t same r) Q
unfolding create_or_ignore_on
Ensures-create_or_ignore_on env t same r old new = record {
  at = λ w h. elim (Bool-cases (env.fails w.step)) [
    | inl down ↦ rw down tt
    | inr up ↦ elim (Bool-cases (any (same r) (t.rows w.db))) [
      | inl taken ↦ rw (up, taken) (old w.db h taken)
      | inr free ↦ elim (Bool-cases (any (t.clash r) (t.rows w.db))) [
        | inl clash ↦ rw (up, free, clash) tt
        | inr fresh ↦ rw (up, free, fresh) (new w.db h free)
      ]
    ]
  ];
}

-- what was true before may be forgotten
pub Ensures-weaken :
    {A : Type 0} {P R : Db → Type 0} {Q : A → Db → Type 0} (m : Tx A)
    → ((d : Db) → P d → R d)
    → Ensures R m Q
    → Ensures P m Q
Ensures-weaken m f e = record { at = λ w h. e.at w (f w.db h) }

pub Ensures-mono :
    {A : Type 0} {P : Db → Type 0} {Q R : A → Db → Type 0} (m : Tx A)
    → ((a : A) (d : Db) → Q a d → R a d)
    → Ensures P m Q
    → Ensures P m R
Ensures-mono {Q} {R} m f e = record { at = λ w h. Outcome-mono Q R (m w) f (e.at w h) }

-- what an action keeps stands beside what it ensures
pub Outcome-with :
    {A : Type 0} (Q : A → Db → Type 0) (P : Db → Type 0) (r : Result A × World)
    → Outcome Q r
    → P r.1.db
    → Outcome (λ a d. Q a d × P d) r
Outcome-with Q P (ok a, w) h k = (h, k)
Outcome-with Q P (err e, w) h k = tt
