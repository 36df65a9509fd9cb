-- ===== src/Tests/World.antt =====
-- A driver that refuses nothing, one that refuses a single statement, and small boards.
use mathlib.Core.List.{Perm}
use mathlib.Core.List.Perm
use mcp_symposium.Prelude.{
  ℕ, ◌+◌, false, refl, ◌∙◌, List, [], ◌∷◌, arith, leb, nat_eq, if◌then◌else◌, Bool-cases, inl, inr,
}
use mcp_symposium.Storage.Mention.Scan.{pad}
use mcp_symposium.Models.{Db}
use mcp_symposium.Engine.{Env, World}
use mcp_symposium.Engine.Order.{Sorts, Ascending, all-perm, all_mono}
use mcp_symposium.Engine.Transactions.{Works}

module _ {A : Type 0} (key : A → ℕ) where
  pub insert_row : A → List A → List A
  insert_row x [] = x ∷ []
  insert_row x (y ∷ ys) = if leb (key x) (key y) then x ∷ y ∷ ys else y ∷ insert_row x ys

  unfoldable pub sort_rows : List A → List A
  unfolding insert_row
  sort_rows [] = []
  sort_rows (x ∷ xs) = insert_row x (sort_rows xs)

  insert_row-perm : (x : A) (xs : List A) → Perm (insert_row x xs) (x ∷ xs)
  unfolding insert_row
  insert_row-perm x [] = Perm.refl (x ∷ [])
  insert_row-perm x (y ∷ ys) = elim (Bool-cases (leb (key x) (key y))) [
    | inl le ↦ rw le (Perm.refl (x ∷ y ∷ ys))
    | inr gt ↦ rw gt (Perm.trans (Perm.cons y (insert_row-perm x ys)) (Perm.swap x y ys))
  ]

  sort_rows-perm : (xs : List A) → Perm (sort_rows xs) xs
  unfolding sort_rows
  sort_rows-perm [] = Perm.nil
  sort_rows-perm (x ∷ xs) =
      Perm.trans (insert_row-perm x (sort_rows xs)) (Perm.cons x (sort_rows-perm xs))

  insert_row-Ascending : (x : A) (xs : List A) → Ascending key xs → Ascending key (insert_row x xs)
  unfolding insert_row
  insert_row-Ascending x [] h = (refl, tt)
  insert_row-Ascending x (y ∷ ys) h = elim (Bool-cases (leb (key x) (key y))) [
    | inl le ↦
        rw
          (
            le,
            all_mono (λ z. leb (key y) (key z)) (λ z. leb (key x) (key z)) (λ z g. ground arith) ys
                h.0,
          )
          (ground (arith, le), h)
    | inr gt ↦ rw gt (
      all-perm (λ z. leb (key y) (key z)) (insert_row-perm x ys) ∙ ground (arith, h.0),
      insert_row-Ascending x ys h.1,
    )
  ]

  sort_rows-Ascending : (xs : List A) → Ascending key (sort_rows xs)
  unfolding sort_rows
  sort_rows-Ascending [] = tt
  sort_rows-Ascending (x ∷ xs) = insert_row-Ascending x (sort_rows xs) (sort_rows-Ascending xs)

-- The clock shows a hundred more than the steps taken, and the identifiers are rows of dots.
abbrev pub calm : Env
calm = record {
  fails = λ n. false;
  clock = λ n. n + 100;
  fresh = λ n. pad n "#";
  sort_asc = λ key xs. sort_rows key xs;
  lower = λ s. s;
}

-- The same, but the statement at one step is refused.
abbrev pub refusing : ℕ → Env
refusing k = record calm { fails = λ n. nat_eq n k }

pub calm-Works : Works calm
calm-Works n = refl

pub calm-Sorts : Sorts calm
calm-Sorts = record {
  rearranges = λ key xs. sort_rows-perm key xs;
  ascends = λ key xs. sort_rows-Ascending key xs;
}

abbrev pub empty : Db
empty = record {
  actors = [];
  credentials = [];
  threads = [];
  replies = [];
  watchers = [];
  thread_watches = [];
  mentions = [];
  tags = [];
  thread_tags = [];
  identities = [];
  profiles = [];
  actor_tags = [];
  bundles = [];
  handoffs = [];
  alerts = [];
}

abbrev pub start : Db → World
start d = record { db = d; step = 0 }
