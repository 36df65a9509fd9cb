-- ===== src/Tests/ThreadQuery.antt =====
-- Three threads in pages of one, with the order of texts by their characters.
use Prim.Native.Char.{code}
use Prim.Native.String
use text.Mathlib.TextEquality.{codes_equal}
use text.Mathlib.TextPositions.{compare_self}
use mcp_symposium.Prelude.{
  ℕ, zero, suc, String, ◌≡◌, refl, ap, ◌∙◌, Bool, true, false, ◌&&◌, ◌||◌, Option, none, some, [],
  ◌∷◌, arith, ltb, nat_eq, eq_iff, inl, inr, Bool-cases,
}
use mcp_symposium.Models.{Thread}
use mcp_symposium.Engine.{World, ok}
use mcp_symposium.Storage.ThreadQuery.{Coding, ListThreadsFilter}
use mcp_symposium.Storage.ThreadQuery.Newest.{IsOrder}
use mcp_symposium.Storage.ThreadQuery.Cursor.{IsCoding, has_bar, cons_not_empty}
use mcp_symposium.Storage.ThreadQuery.Pages.{walk, walk-listed}
use mcp_symposium.Tests.World.{calm, calm-Works, empty, start}

abbrev text_lt : String → String → Bool
text_lt String.[] String.[] = false
text_lt String.[] (String.◌∷◌ d t) = true
text_lt (String.◌∷◌ c s) String.[] = false
text_lt (String.◌∷◌ c s) (String.◌∷◌ d t) =
    ltb (code c) (code d) || (nat_eq (code c) (code d) && text_lt s t)

text_lt_irrefl : (s : String) → text_lt s s ≡ false
text_lt_irrefl String.[] = refl
text_lt_irrefl (String.◌∷◌ c s) = ground (arith, text_lt_irrefl s)

text_lt_trans : (a b c : String) → text_lt a b ≡ true → text_lt b c ≡ true → text_lt a c ≡ true
text_lt_trans String.[] String.[] c h k = cc
text_lt_trans String.[] (String.◌∷◌ y b) String.[] h k = cc
text_lt_trans String.[] (String.◌∷◌ y b) (String.◌∷◌ z c) h k = refl
text_lt_trans (String.◌∷◌ x a) String.[] c h k = cc
text_lt_trans (String.◌∷◌ x a) (String.◌∷◌ y b) String.[] h k = cc
text_lt_trans (String.◌∷◌ x a) (String.◌∷◌ y b) (String.◌∷◌ z c) h k =
    ground (arith, h, k, text_lt_trans a b c)

text_lt_total : (a b : String) → text_lt a b ≡ false → text_lt b a ≡ false → a ≡ b
text_lt_total String.[] String.[] h k = refl
text_lt_total String.[] (String.◌∷◌ d t) h k = cc
text_lt_total (String.◌∷◌ c s) String.[] h k = cc
text_lt_total (String.◌∷◌ c s) (String.◌∷◌ d t) h k =
    let same : code c ≡ code d = ground (arith, h, k) in
    let first : c ≡ d = codes_equal c d (rw same (compare_self (code d))) in
    let rest : s ≡ t = text_lt_total s t (ground (arith, h, same)) (ground (arith, k, same)) in
    rw (first, rest) refl

pub dots : ℕ → String
dots zero = ""
dots (suc n) = String.◌∷◌ "." (dots n)

dots-count : (n : ℕ) → String.count (dots n) ≡ n
unfolding dots
dots-count zero = String.count.nil
dots-count (suc n) = String.count.cons "." (dots n) ∙ ap suc (dots-count n)

dots-has_bar : (n : ℕ) → has_bar (dots n) ≡ false
unfolding dots
dots-has_bar zero = refl
dots-has_bar (suc n) = dots-has_bar n

abbrev behind_first : String → Option String
behind_first String.[] = none
behind_first (String.◌∷◌ c s) = some s

-- A time is a row of dots, and the encoding puts a dot in front.
abbrev dotted : Coding
dotted = record {
  id_lt = text_lt;
  format = dots;
  parse = λ s. some (String.count s);
  encode64 = λ s. String.◌∷◌ "." s;
  decode64 = behind_first;
}

dotted-IsOrder : IsOrder dotted
dotted-IsOrder = record {
  irreflexive = text_lt_irrefl;
  transitive = text_lt_trans;
  total = λ a b other h. elim (Bool-cases (text_lt b a)) [
    | inl less ↦ less
    | inr more ↦ cc ((eq_iff a b).1 (text_lt_total a b h more), other)
  ];
}

dotted-IsCoding : IsCoding dotted
dotted-IsCoding = record {
  parses = λ t. ap some (dots-count t);
  no_bar = dots-has_bar;
  decodes = λ s. refl;
  not_empty = λ s _. cons_not_empty "." s;
}

abbrev written : String → ℕ → Thread
written id at = record {
  id = id;
  title = "t";
  body = "b";
  external_id = none;
  status = "open";
  author_id = "a";
  created_at = at;
  updated_at = at;
}

abbrev board : World
board = start (record empty { threads = written "t1" 10 ∷ written "t3" 12 ∷ written "t2" 12 ∷ [] })

abbrev open_ones : ListThreadsFilter
open_ones = record { status = "open"; tags = []; limit = 1; cursor = "" }

walk-listed_example :
    (walk dotted calm 4 open_ones "" board).0
    ≡ ok (some (written "t3" 12 ∷ written "t2" 12 ∷ written "t1" 10 ∷ []))
walk-listed_example =
    walk-listed dotted dotted-IsOrder dotted-IsCoding calm calm-Works open_ones board
      ((refl, (refl, tt)), ((refl, tt), (tt, tt))) 3 (omega arith)
