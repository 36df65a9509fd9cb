-- ===== src/BoardSecret/Lines.antt =====
-- The lines of a text that grows by whole lines.
use Prim.Native.Char.{Char, code}
use Prim.Native.String
use mcp_symposium.Prelude.{
  String, ◌≡◌, refl, ap, ◌∙◌, Bool, true, false, ◌||◌, List, [], ◌∷◌, ◌++◌, any, nat_eq, Bool-cases,
  inl, inr, if◌then◌else◌, arith,
}
use text.Mathlib.TextLemmas.{nil-append, cons-append, append-nil}
use mcp_symposium.Envelope.Guards.{or_false}
use mcp_symposium.BoardSecret.Seen.{onto_first, split_lines}

-- empty, or a last line that is ended
abbrev pub is_complete : String → Bool
is_complete String.[] = true
is_complete (String.◌∷◌ c String.[]) = nat_eq (code c) 10
is_complete (String.◌∷◌ c (String.◌∷◌ d s)) = is_complete (String.◌∷◌ d s)

abbrev pub has_newline : String → Bool
has_newline String.[] = false
has_newline (String.◌∷◌ c s) = nat_eq (code c) 10 || has_newline s

-- the lines that are ended
abbrev pub ended_lines : String → List String
ended_lines String.[] = []
ended_lines (String.◌∷◌ c s) =
    let rest = ended_lines s in
    if nat_eq (code c) 10 then "" ∷ rest else onto_first (String.◌∷◌ c "") rest

onto_first-cons :
    (c : String) (ls : List String)
    → (l : String) × (rest : List String) × (onto_first c ls ≡ l ∷ rest)
onto_first-cons c [] = (c, [], refl)
onto_first-cons c (l ∷ ls) = (String.◌++◌ c l, ls, refl)

ended_lines-cons :
    (c : Char) (s : String)
    → (l : String) × (ls : List String) × (ended_lines (String.◌∷◌ c s) ≡ l ∷ ls)
ended_lines-cons c s = elim (Bool-cases (nat_eq (code c) 10)) [
  | inl here ↦ ("", ended_lines s, rw here refl)
  | inr other ↦ rw other (onto_first-cons (String.◌∷◌ c "") (ended_lines s))
]

-- What comes behind whole lines is split by itself.
pub split_lines-append :
    (s t : String)
    → is_complete s ≡ true
    → split_lines (String.◌++◌ s t) ≡ ended_lines s ++ split_lines t
split_lines-append String.[] t h = ap split_lines (nil-append t)
split_lines-append (String.◌∷◌ c String.[]) t h = rw (cons-append c "" t, nil-append t, h) refl
split_lines-append (String.◌∷◌ c (String.◌∷◌ d s)) t h =
    let rest = split_lines-append (String.◌∷◌ d s) t h in
    let (l, ls, first) = ended_lines-cons d s in
    elim (Bool-cases (nat_eq (code c) 10)) [
      | inl here ↦ rw (cons-append c (String.◌∷◌ d s) t, here, rest) refl
      | inr other ↦ rw (cons-append c (String.◌∷◌ d s) t, other, rest, first) refl
    ]

is_complete-cons :
    (c : Char) (s : String)
    → is_complete (String.◌++◌ s "\n") ≡ true
    → is_complete (String.◌∷◌ c (String.◌++◌ s "\n")) ≡ true
is_complete-cons c String.[] h = refl
is_complete-cons c (String.◌∷◌ d s) h = rw (cons-append d s "\n") (rw (cons-append d s "\n") at h)

pub is_complete-line : (s : String) → is_complete (String.◌++◌ s "\n") ≡ true
is_complete-line String.[] = refl
is_complete-line (String.◌∷◌ c s) =
    rw (cons-append c s "\n") (is_complete-cons c s (is_complete-line s))

-- A text without a newline is one line.
pub ended_lines-line :
    (s : String) → has_newline s ≡ false → ended_lines (String.◌++◌ s "\n") ≡ s ∷ []
ended_lines-line String.[] h = refl
ended_lines-line (String.◌∷◌ c s) h =
    let (other, tail) = or_false (nat_eq (code c) 10) (has_newline s) h in
    rw (cons-append c s "\n", other, ended_lines-line s tail)
      (ap (λ l. l ∷ []) (cons-append c "" s ∙ ap (String.◌∷◌ c) (nil-append s)))

pub is_complete-append :
    (s t : String)
    → is_complete s ≡ true
    → is_complete t ≡ true
    → is_complete (String.◌++◌ s t) ≡ true
is_complete-append String.[] t h k = rw (nil-append t) k
is_complete-append (String.◌∷◌ c String.[]) String.[] h k = rw (cons-append c "" "") h
is_complete-append (String.◌∷◌ c String.[]) (String.◌∷◌ d t) h k =
    rw (cons-append c "" (String.◌∷◌ d t), nil-append (String.◌∷◌ d t)) k
is_complete-append (String.◌∷◌ c (String.◌∷◌ d s)) t h k =
    rw (cons-append c (String.◌∷◌ d s) t, cons-append d s t)
      (rw (cons-append d s t) at (is_complete-append (String.◌∷◌ d s) t h k))

module _ {A : Type 0} (q : A → Bool) where
  any-join : (xs ys : List A) → any q (xs ++ ys) ≡ (any q xs || any q ys)
  any-join [] ys = refl
  any-join (x ∷ xs) ys = ground (arith, any-join xs ys)

  any-join_left : (xs ys : List A) → any q xs ≡ true → any q (xs ++ ys) ≡ true
  any-join_left xs ys h = ground (arith, any-join xs ys)

module _ (q : String → Bool) (s : String) (whole : is_complete s ≡ true) where
  -- A line of a whole text that passes a test which the empty line fails stays when text is added.
  pub any-split_old :
      (t : String)
      → q "" ≡ false
      → any q (split_lines s) ≡ true
      → any q (split_lines (String.◌++◌ s t)) ≡ true
  any-split_old t blank h =
      let here = rw (append-nil s) at (split_lines-append s "" whole) in
      rw (split_lines-append s t whole) (
        any-join_left q (ended_lines s) (split_lines t)
          (ground (arith, any-join q (ended_lines s) ("" ∷ []), rw here at h)))

  -- A line that is added to a whole text is there.
  pub any-split_new :
      (line : String)
      → has_newline line ≡ false
      → q line ≡ true
      → any q (split_lines (String.◌++◌ s (String.◌++◌ line "\n"))) ≡ true
  any-split_new line one h =
      let l = String.◌++◌ line "\n" in
      let lines =
        rw (append-nil l, ended_lines-line line one) at
          (split_lines-append l "" (is_complete-line line)) in
      rw (split_lines-append s l whole, lines)
        (ground (arith, any-join q (ended_lines s) (line ∷ "" ∷ [])))
