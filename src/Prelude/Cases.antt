-- ===== src/Prelude/Cases.antt =====
-- What is known of the rows that a test finds.
use mathlib.Core.Path.{◌≡◌, refl}
use mathlib.Core.Logic.{inl, inr}
use mathlib.Core.Bool.{Bool, true, false, not}
use mathlib.Core.List.{List, [], ◌∷◌, ◌++◌}
use mathlib.Core.Option.{none, some}
use native.Mathlib.Omega.{arith}
use mcp_symposium.Prelude.Tests.{Bool-cases}
use mcp_symposium.Prelude.Lists.{find, any, rewrite, select}
use mcp_symposium.Prelude.Rows.{option_map}

module _ {ℓ} {A : Type ℓ} (q : A → Bool) where
  -- A test that some row passes finds one.
  pub find-any : (xs : List A) → any q xs ≡ true → (x : A) × (find q xs ≡ some x) × (q x ≡ true)
  find-any [] h = cc
  find-any (x ∷ xs) h = elim (Bool-cases (q x)) [
    | inl hit ↦ (x, rw hit refl, hit)
    | inr miss ↦ let (y, here, same) = find-any xs (ground arith) in (y, rw miss here, same)
  ]

  pub find-any-false : (xs : List A) → any q xs ≡ false → find q xs ≡ none
  find-any-false [] h = refl
  find-any-false (x ∷ xs) h = ground (arith, find-any-false xs)

  pub any_imp :
      (p : A → Bool)
      → ((x : A) → p x ≡ true → q x ≡ true)
      → (xs : List A) → any p xs ≡ true
      → any q xs ≡ true
  any_imp p imp [] h = cc
  any_imp p imp (x ∷ xs) h = ground (arith, imp x, any_imp p imp xs)

  pub any-append_old : (xs : List A) (r : A) → any q xs ≡ true → any q (xs ++ r ∷ []) ≡ true
  any-append_old [] r h = cc
  any-append_old (x ∷ xs) r h = ground (arith, any-append_old xs r)

  pub any-select-not : (xs : List A) → any q (select (λ x. not (q x)) xs) ≡ false
  any-select-not [] = refl
  any-select-not (x ∷ xs) = elim (Bool-cases (q x)) [
    | inl hit ↦ rw hit (any-select-not xs)
    | inr miss ↦ rw (miss, miss) (any-select-not xs)
  ]

  pub find_map-append :
      {B : Type 0} (g : A → B) (xs : List A) (r : A) {b : B}
      → option_map g (find q xs) ≡ some b
      → option_map g (find q (xs ++ r ∷ [])) ≡ some b
  find_map-append g [] r h = cc
  find_map-append g (x ∷ xs) r {b} h = elim (Bool-cases (q x)) [
    | inl hit ↦ rw hit (rw hit at h)
    | inr miss ↦ rw miss (find_map-append g xs r {b = b} (rw miss at h))
  ]

  pub find-append_miss : (xs : List A) (r : A) → q r ≡ false → find q (xs ++ r ∷ []) ≡ find q xs
  find-append_miss [] r h = rw h refl
  find-append_miss (x ∷ xs) r h = ground (arith, find-append_miss xs r)

  -- After an update of the rows that the test finds, what it finds is updated.
  pub find_map-rewrite :
      {B : Type 0} (g : A → B) (f : A → A) (b : B)
      → ((x : A) → q (f x) ≡ q x)
      → ((x : A) → g (f x) ≡ b)
      → (xs : List A) → any q xs ≡ true
      → option_map g (find q (rewrite q f xs)) ≡ some b
  find_map-rewrite g f b keeps sets [] h = cc
  find_map-rewrite g f b keeps sets (x ∷ xs) h = elim (Bool-cases (q x)) [
    | inl hit ↦ rw (hit, keeps x, hit, sets x) refl
    | inr miss ↦ rw (miss, miss) (find_map-rewrite g f b keeps sets xs (ground arith))
  ]
