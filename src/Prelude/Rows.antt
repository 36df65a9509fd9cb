-- ===== src/Prelude/Rows.antt =====
-- Lists of rows that are told apart by a key, under selection and rewriting.
use Prim.Native.String.{String}
use mathlib.Core.Path.{◌≡◌, refl}
use mathlib.Core.Logic.{inl, inr}
use mathlib.Core.Bool.{Bool, true, false}
use mathlib.Core.List.{List, [], ◌∷◌, ◌++◌}
use mathlib.Core.Option.{Option, none, some}
use native.Mathlib.Omega.{arith}
use mcp_symposium.Prelude.Tests.{if◌then◌else◌, Bool-cases, ◌==◌, eq_iff}
use mcp_symposium.Prelude.Lists.{find, any, count, rewrite, All}

abbrev pub when_some {ℓ κ} : {A : Type ℓ} {B : Type κ} → Option A → (A → B) → B → B
when_some none f b = b
when_some (some a) f b = f a

abbrev pub option_map {ℓ κ} : {A : Type ℓ} {B : Type κ} → (A → B) → Option A → Option B
option_map f none = none
option_map f (some a) = some (f a)

pub find_sound {ℓ} :
    {A : Type ℓ} (q : A → Bool) (xs : List A) {x : A} → find q xs ≡ some x → q x ≡ true
find_sound q [] {x} h = cc
find_sound q (y ∷ xs) {x} h = ground (arith, find_sound q xs {x = x})

module _ {ℓ} {A : Type ℓ} (p : A → Bool) (f : A → A) where
  -- A rewriting that leaves the searched columns alone rewrites what the search finds.
  pub find-rewrite :
      (q : A → Bool)
      → ((x : A) → q (f x) ≡ q x)
      → (xs : List A)
      → find q (rewrite p f xs) ≡ option_map (λ x. if p x then f x else x) (find q xs)
  find-rewrite q keeps [] = refl
  find-rewrite q keeps (x ∷ xs) = ground (arith, keeps x, find-rewrite q keeps xs)

  -- A rewriting of other rows does not change what the search finds.
  pub find-rewrite_ne :
      (q : A → Bool)
      → ((x : A) → q (f x) ≡ q x)
      → ((x : A) → p x ≡ true → q x ≡ false)
      → (xs : List A) → find q (rewrite p f xs) ≡ find q xs
  find-rewrite_ne q keeps apart [] = refl
  find-rewrite_ne q keeps apart (x ∷ xs) =
      ground (arith, keeps x, apart x, find-rewrite_ne q keeps apart xs)

  pub rewrite-none : (xs : List A) → count p xs ≡ 0 → rewrite p f xs ≡ xs
  rewrite-none [] h = refl
  rewrite-none (x ∷ xs) h = ground (arith, rewrite-none xs)

module _ {ℓ} {A : Type ℓ} (key : A → String) where
  -- no two rows have one key
  abbrev pub Keyed : List A → Type 0
  Keyed [] = Unit
  Keyed (x ∷ xs) = All (λ y. (key y == key x) ≡ false) xs × Keyed xs

  count_absent :
      (k : String) (p : A → Bool) (imp : (x : A) → p x ≡ true → key x ≡ k) (xs : List A)
      → All (λ y. (key y == k) ≡ false) xs
      → count p xs ≡ 0
  count_absent k p imp [] h = refl
  count_absent k p imp (x ∷ xs) h =
      ground (arith, imp x, eq_iff (key x) k, count_absent k p imp xs h.1)

  -- A test that names the key matches the one row with the key, or none.
  pub count-Keyed :
      (k : String) (p : A → Bool)
      → ((x : A) → p x ≡ true → key x ≡ k)
      → (xs : List A) → Keyed xs
      → count p xs ≡ when_some (find (λ x. key x == k) xs) (λ x. if p x then 1 else 0) 0
  count-Keyed k p imp [] h = refl
  count-Keyed k p imp (x ∷ xs) h = elim (Bool-cases (key x == k)) [
    | inl same ↦
        let e : key x ≡ k = (eq_iff (key x) k).0 same in
        rw same (ground (arith, count_absent k p imp xs (rw e at h.0)))
    | inr other ↦ rw other (ground (arith, imp x, eq_iff (key x) k, count-Keyed k p imp xs h.1))
  ]

  All-rewrite :
      (k : String) (p : A → Bool) (f : A → A) (keeps : (x : A) → key (f x) ≡ key x) (xs : List A)
      → All (λ y. (key y == k) ≡ false) xs
      → All (λ y. (key y == k) ≡ false) (rewrite p f xs)
  All-rewrite k p f keeps [] h = tt
  All-rewrite k p f keeps (x ∷ xs) h = elim (Bool-cases (p x)) [
    | inl hit ↦ rw (hit, keeps x) (h.0, All-rewrite k p f keeps xs h.1)
    | inr miss ↦ rw miss (h.0, All-rewrite k p f keeps xs h.1)
  ]

  -- An update that leaves the key alone keeps the rows apart.
  pub Keyed-rewrite :
      (p : A → Bool) (f : A → A) (keeps : (x : A) → key (f x) ≡ key x) (xs : List A)
      → Keyed xs
      → Keyed (rewrite p f xs)
  Keyed-rewrite p f keeps [] h = tt
  Keyed-rewrite p f keeps (x ∷ xs) h = elim (Bool-cases (p x)) [
    | inl hit ↦
        rw (hit, keeps x) (All-rewrite (key x) p f keeps xs h.0, Keyed-rewrite p f keeps xs h.1)
    | inr miss ↦ rw miss (All-rewrite (key x) p f keeps xs h.0, Keyed-rewrite p f keeps xs h.1)
  ]

  All-append :
      (k : String) (xs : List A) (r : A)
      → All (λ y. (key y == k) ≡ false) xs
      → (key r == k) ≡ false
      → All (λ y. (key y == k) ≡ false) (xs ++ r ∷ [])
  All-append k [] r h e = (e, tt)
  All-append k (x ∷ xs) r h e = (h.0, All-append k xs r h.1 e)

  -- A row that clashes with none keeps the rows apart.
  pub Keyed-append :
      (xs : List A) (r : A) → any (λ x. key r == key x) xs ≡ false → Keyed xs → Keyed (xs ++ r ∷ [])
  Keyed-append [] r e h = (tt, tt)
  Keyed-append (x ∷ xs) r e h =
      (All-append (key x) xs r h.0 (ground arith), Keyed-append xs r (ground arith) h.1)

module _ {ℓ} {A : Type ℓ} (q : A → Bool) where
  pub find-append :
      (xs : List A) (r : A) {x : A} → find q xs ≡ some x → find q (xs ++ r ∷ []) ≡ some x
  find-append [] r h = cc
  find-append (y ∷ xs) r {x} h = ground (arith, find-append xs r {x = x})

  -- A row that was written behind rows that do not match is found.
  pub find-append_new :
      (xs : List A) (r : A) → any q xs ≡ false → q r ≡ true → find q (xs ++ r ∷ []) ≡ some r
  find-append_new [] r h e = rw e
  find-append_new (y ∷ xs) r h e = ground (arith, find-append_new xs r)

  pub any-append : (xs : List A) (r : A) → q r ≡ true → any q (xs ++ r ∷ []) ≡ true
  any-append [] r e = rw e
  any-append (y ∷ xs) r e = ground (arith, any-append xs r)

  pub any_mono :
      (p : A → Bool)
      → ((x : A) → p x ≡ true → q x ≡ true)
      → (xs : List A) → any q xs ≡ false
      → any p xs ≡ false
  any_mono p imp [] h = refl
  any_mono p imp (x ∷ xs) h = ground (arith, imp x, any_mono p imp xs)
