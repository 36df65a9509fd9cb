-- ===== src/Engine/Order.antt =====
-- What the source relies on of ORDER BY: the same rows, from the least to the greatest.
use mathlib.Core.Bool.{Bool-set}
use mathlib.Core.List.{Perm, Permᴰ}
use mathlib.Core.Logic.{∥∥₁_elim}
use mcp_symposium.Prelude.{
  ℕ, Bool, true, false, not, ◌||◌, ◌≡◌, refl, ◌∙◌, List, [], ◌∷◌, arith, all, select, leb,
}
use mcp_symposium.Engine.Defs.{Env}

abbrev pub Ascending : {A : Type 0} → (A → ℕ) → List A → Type 0
Ascending key [] = Unit
Ascending key (x ∷ xs) = (all (λ y. leb (key x) (key y)) xs ≡ true) × Ascending key xs

-- Documented behaviour of ORDER BY, as hypotheses on the parameter.
pub record Sorts (env : Env) : Type 1 where
  pub rearranges : {A : Type 0} (key : A → ℕ) (xs : List A) → Perm (env.sort_asc key xs) xs
  pub ascends : {A : Type 0} (key : A → ℕ) (xs : List A) → Ascending key (env.sort_asc key xs)

module _ {A : Type 0} (p : A → Bool) where
  all-permᴰ : {xs ys : List A} → Permᴰ xs ys → all p xs ≡ all p ys
  all-permᴰ Permᴰ.nil = refl
  all-permᴰ (Permᴰ.cons e d) = rw (e, all-permᴰ d)
  all-permᴰ (Permᴰ.swap e f) = rw (e, f) (ground arith)
  all-permᴰ (Permᴰ.trans d e) = all-permᴰ d ∙ all-permᴰ e

  pub all-perm : {xs ys : List A} → Perm xs ys → all p xs ≡ all p ys
  all-perm h = ∥∥₁_elim h (Bool-set _ _) all-permᴰ

  -- a test of all selected rows is a test of all rows
  pub all-select :
      (q : A → Bool) (xs : List A) → all p (select q xs) ≡ all (λ x. not (q x) || p x) xs
  all-select q [] = refl
  all-select q (x ∷ xs) = ground (arith, all-select q xs)

  pub all_mono :
      (q : A → Bool)
      → ((x : A) → p x ≡ true → q x ≡ true)
      → (xs : List A) → all p xs ≡ true
      → all q xs ≡ true
  all_mono q imp [] h = refl
  all_mono q imp (x ∷ xs) h = ground (arith, imp x, all_mono q imp xs)

  pub select_none : (xs : List A) → all (λ x. not (p x)) xs ≡ true → select p xs ≡ []
  select_none [] h = refl
  select_none (x ∷ xs) h = ground (arith, select_none xs)

all-false : {A : Type 0} (xs : List A) → all (λ _. false) xs ≡ true → xs ≡ []
all-false [] h = refl
all-false (x ∷ xs) h = cc

pub sort-nil : {env : Env} → Sorts env → {A : Type 0} (key : A → ℕ) → env.sort_asc key [] ≡ []
sort-nil {env} sorts key =
    all-false (env.sort_asc key []) (all-perm (λ _. false) (sorts.rearranges key []))
