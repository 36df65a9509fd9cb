-- ===== src/Storage/ThreadQuery/Newest.antt =====
-- The order of the list of threads, and what a WHERE clause selects from it.
use mcp_symposium.Prelude.{
  String, ◌≡◌, refl, sym, ap, Bool, true, false, ◌&&◌, List, [], ◌∷◌, ◌++◌, All, select, ◌==◌,
  arith, if◌then◌else◌, inl, inr, Bool-cases,
}
use mcp_symposium.Prelude.Rows.{Keyed}
use mcp_symposium.Models.{Thread}
use mcp_symposium.Storage.ThreadQuery.{Coding, is_before, insert_newest, newest_first}

-- The order of identifiers is a strict order of all texts.
pub record IsOrder (coding : Coding) : Type 0 where
  pub irreflexive : (a : String) → coding.id_lt a a ≡ false
  pub transitive :
      (a b c : String) → coding.id_lt a b ≡ true → coding.id_lt b c ≡ true → coding.id_lt a c ≡ true
  pub total : (a b : String) → (a == b) ≡ false → coding.id_lt a b ≡ false → coding.id_lt b a ≡ true

module _ {A : Type 0} where
  pub All-select : (P : A → Type 0) (p : A → Bool) (xs : List A) → All P xs → All P (select p xs)
  All-select P p [] h = tt
  All-select P p (x ∷ xs) h = elim (Bool-cases (p x)) [
    | inl hit ↦ rw hit (h.0, All-select P p xs h.1)
    | inr miss ↦ rw miss (All-select P p xs h.1)
  ]

  All-mono : (P Q : A → Type 0) (k : (x : A) → P x → Q x) (xs : List A) → All P xs → All Q xs
  All-mono P Q k [] h = tt
  All-mono P Q k (x ∷ xs) h = (k x h.0, All-mono P Q k xs h.1)

  All-middle :
      (P : A → Type 0) (pre : List A) (x : A) (post : List A) → All P (pre ++ x ∷ post) → P x
  All-middle P [] x post h = h.0
  All-middle P (y ∷ pre) x post h = All-middle P pre x post h.1

  pub select-select :
      (p q : A → Bool) (xs : List A) → select (λ x. p x && q x) xs ≡ select q (select p xs)
  select-select p q [] = refl
  select-select p q (x ∷ xs) = ground (arith, select-select p q xs)

  pub select-All : (p : A → Bool) (xs : List A) → All (λ x. p x ≡ true) xs → select p xs ≡ xs
  select-All p [] h = refl
  select-All p (x ∷ xs) h = rw (h.0, select-All p xs h.1) refl

  pub Keyed-select :
      (key : A → String) (p : A → Bool) (xs : List A) → Keyed key xs → Keyed key (select p xs)
  Keyed-select key p [] h = tt
  Keyed-select key p (x ∷ xs) h = elim (Bool-cases (p x)) [
    | inl hit ↦
        rw hit (All-select (λ y. (key y == key x) ≡ false) p xs h.0, Keyed-select key p xs h.1)
    | inr miss ↦ rw miss (Keyed-select key p xs h.1)
  ]

module _ (coding : Coding) (order : IsOrder coding) where
  -- y comes behind x in the list
  abbrev pub behind : Thread → Thread → Bool
  behind x y = is_before coding x.created_at x.id y

  abbrev pub IsNewestFirst : List Thread → Type 0
  IsNewestFirst [] = Unit
  IsNewestFirst (x ∷ xs) = All (λ y. behind x y ≡ true) xs × IsNewestFirst xs

  behind_trans : (x y z : Thread) → behind x y ≡ true → behind y z ≡ true → behind x z ≡ true
  behind_trans x y z h k = ground (arith, h, k, order.transitive z.id y.id x.id)

  behind_irrefl : (x : Thread) → behind x x ≡ false
  behind_irrefl x = ground (arith, order.irreflexive x.id)

  behind_asym : (x y : Thread) → behind x y ≡ true → behind y x ≡ false
  behind_asym x y h = ground (arith, behind_trans x y x h, behind_irrefl x)

  behind_total : (x y : Thread) → (y.id == x.id) ≡ false → behind x y ≡ false → behind y x ≡ true
  behind_total x y h k = ground (arith, k, order.total y.id x.id h)

  insert-All :
      (P : Thread → Type 0) (x : Thread) (ys : List Thread)
      → P x
      → All P ys
      → All P (insert_newest coding x ys)
  insert-All P x [] p h = (p, tt)
  insert-All P x (y ∷ ys) p h = elim (Bool-cases (behind x y)) [
    | inl before ↦ rw before (p, h)
    | inr later ↦ rw later (h.0, insert-All P x ys p h.1)
  ]

  pub sort-All :
      (P : Thread → Type 0) (xs : List Thread) → All P xs → All P (newest_first coding xs)
  sort-All P [] h = tt
  sort-All P (x ∷ xs) h = insert-All P x (newest_first coding xs) h.0 (sort-All P xs h.1)

  insert-IsNewestFirst :
      (x : Thread) (ys : List Thread)
      → All (λ y. (y.id == x.id) ≡ false) ys
      → IsNewestFirst ys
      → IsNewestFirst (insert_newest coding x ys)
  insert-IsNewestFirst x [] other h = (tt, tt)
  insert-IsNewestFirst x (y ∷ ys) other h = elim (Bool-cases (behind x y)) [
    | inl before ↦ rw before ((before, All-mono _ _ (λ z k. behind_trans x y z before k) ys h.0), h)
    | inr later ↦ rw later (
      insert-All (λ z. behind y z ≡ true) x ys (behind_total x y other.0 later) h.0,
      insert-IsNewestFirst x ys other.1 h.1,
    )
  ]

  pub sort-IsNewestFirst :
      (xs : List Thread) → Keyed (λ t. t.id) xs → IsNewestFirst (newest_first coding xs)
  sort-IsNewestFirst [] h = tt
  sort-IsNewestFirst (x ∷ xs) h =
      insert-IsNewestFirst x (newest_first coding xs)
        (sort-All (λ y. (y.id == x.id) ≡ false) xs h.0) (sort-IsNewestFirst xs h.1)

  insert_first :
      (x : Thread) (ys : List Thread)
      → All (λ y. behind x y ≡ true) ys
      → insert_newest coding x ys ≡ x ∷ ys
  insert_first x [] h = refl
  insert_first x (y ∷ ys) h = rw h.0 refl

  select-insert :
      (p : Thread → Bool) (x : Thread) (ys : List Thread)
      → IsNewestFirst ys
      → select p (insert_newest coding x ys)
        ≡ (if p x then insert_newest coding x (select p ys) else select p ys)
  select-insert p x [] h = refl
  select-insert p x (y ∷ ys) h =
      let tail = select-insert p x ys h.1 in
      elim (Bool-cases (behind x y)) [
        | inl before ↦ elim (Bool-cases (p x)) [
          | inl hit ↦
              rw (before, hit)
                (sym (
                  insert_first x (select p (y ∷ ys)) (
                    All-select (λ z. behind x z ≡ true) p (y ∷ ys)
                      (before, All-mono _ _ (λ z k. behind_trans x y z before k) ys h.0))))
          | inr miss ↦ rw (before, miss) refl
        ]
        | inr later ↦ elim (Bool-cases (p y)) [
          | inl keep ↦ elim (Bool-cases (p x)) [
            | inl hit ↦ rw (later, keep, hit, later) (ap (λ l. y ∷ l) (rw hit at tail))
            | inr miss ↦ rw (later, keep, miss) (ap (λ l. y ∷ l) (rw miss at tail))
          ]
          | inr drops ↦ rw (later, drops) tail
        ]
      ]

  -- A selection of the sorted rows is the sorted selection.
  pub select-newest_first :
      (p : Thread → Bool) (xs : List Thread)
      → Keyed (λ t. t.id) xs
      → select p (newest_first coding xs) ≡ newest_first coding (select p xs)
  select-newest_first p [] h = refl
  select-newest_first p (x ∷ xs) h = ground (
    arith,
    select-insert p x (newest_first coding xs) (sort-IsNewestFirst xs h.1),
    select-newest_first p xs h.1,
  )

  -- What lies behind a row of the list is the rest of the list.
  pub select-behind :
      (pre : List Thread) (x : Thread) (post : List Thread)
      → IsNewestFirst (pre ++ x ∷ post)
      → select (behind x) (pre ++ x ∷ post) ≡ post
  select-behind [] x post h = rw (behind_irrefl x) (select-All (behind x) post h.0)
  select-behind (y ∷ pre) x post h =
      rw (behind_asym y x (All-middle (λ z. behind y z ≡ true) pre x post h.0))
        (select-behind pre x post h.1)
