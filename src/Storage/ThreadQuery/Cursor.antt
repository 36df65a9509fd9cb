-- ===== src/Storage/ThreadQuery/Cursor.antt =====
-- The cursor of a page, and the rows of a page.
use Prim.Native.Char.{Char, code}
use Prim.Native.String
use mcp_symposium.Prelude.{
  ℕ, zero, suc, ◌≤◌, ◌<◌, String, ◌≡◌, refl, ap, ◌∙◌, Bool, true, false, ◌||◌, some, List, [], ◌∷◌,
  ◌++◌, select, length, take, ◌==◌, eq_iff, arith, ltb, nat_eq, inl, inr, Bool-cases,
}
use text.Mathlib.TextLemmas.{nil-append, cons-append, cons≢nil}
use mcp_symposium.Envelope.Guards.{or_false}
use mcp_symposium.Models.{Thread}
use mcp_symposium.Storage.ThreadQuery.{
  Coding, split_bar, encode_thread_cursor, decode_thread_cursor, cursor_of, page,
}

abbrev pub has_bar : String → Bool
has_bar String.[] = false
has_bar (String.◌∷◌ c s) = nat_eq (code c) b'|' || has_bar s

-- A time is read back from its text, which has no bar; a text is read back from its base64, which is
-- not empty when the text is not.
pub record IsCoding (coding : Coding) : Type 0 where
  pub parses : (t : ℕ) → coding.parse (coding.format t) ≡ some t
  pub no_bar : (t : ℕ) → has_bar (coding.format t) ≡ false
  pub decodes : (s : String) → coding.decode64 (coding.encode64 s) ≡ some s
  pub not_empty : (s : String) → (s == "") ≡ false → (coding.encode64 s == "") ≡ false

bar_cons : (t : String) → String.◌++◌ "|" t ≡ String.◌∷◌ "|" t
bar_cons t = cons-append "|" "" t ∙ ap (String.◌∷◌ "|") (nil-append t)

split_bar-append :
    (s t : String) → has_bar s ≡ false → split_bar (String.◌++◌ s (String.◌++◌ "|" t)) ≡ some (s, t)
split_bar-append String.[] t h = rw (nil-append (String.◌++◌ "|" t), bar_cons t) refl
split_bar-append (String.◌∷◌ c s) t h =
    let (other, tail) = or_false (nat_eq (code c) b'|') (has_bar s) h in
    rw (cons-append c s (String.◌++◌ "|" t), other, split_bar-append s t tail) refl

pub cons_not_empty : (c : Char) (s : String) → (String.◌∷◌ c s == "") ≡ false
cons_not_empty c s = elim (Bool-cases (String.◌∷◌ c s == "")) [
  | inl same ↦ absurd (cons≢nil ((eq_iff (String.◌∷◌ c s) "").0 same))
  | inr other ↦ other
]

barred_not_empty : (s t : String) → (String.◌++◌ s (String.◌++◌ "|" t) == "") ≡ false
barred_not_empty String.[] t =
    rw (nil-append (String.◌++◌ "|" t), bar_cons t) (cons_not_empty "|" t)
barred_not_empty (String.◌∷◌ c s) t =
    rw (cons-append c s (String.◌++◌ "|" t)) (cons_not_empty c (String.◌++◌ s (String.◌++◌ "|" t)))

module _ {A : Type 0} where
  abbrev pub drop : ℕ → List A → List A
  drop zero xs = xs
  drop (suc n) [] = []
  drop (suc n) (x ∷ xs) = drop n xs

  length-take-suc : (n : ℕ) (xs : List A) → ltb n (length (take (suc n) xs)) ≡ ltb n (length xs)
  length-take-suc zero [] = refl
  length-take-suc zero (x ∷ xs) = ground arith
  length-take-suc (suc n) [] = refl
  length-take-suc (suc n) (x ∷ xs) = ground (arith, length-take-suc n xs)

  take-take-suc : (n : ℕ) (xs : List A) → take n (take (suc n) xs) ≡ take n xs
  take-take-suc zero xs = refl
  take-take-suc (suc n) [] = refl
  take-take-suc (suc n) (x ∷ xs) = ap (λ l. x ∷ l) (take-take-suc n xs)

  take_short : (n : ℕ) (xs : List A) → ltb n (length xs) ≡ false → take (suc n) xs ≡ xs
  take_short n [] h = refl
  take_short zero (x ∷ xs) h = absurd (ground (arith, h))
  take_short (suc n) (x ∷ xs) h = ap (λ l. x ∷ l) (take_short n xs (ground (arith, h)))

  pub take-drop : (n : ℕ) (xs : List A) → take n xs ++ drop n xs ≡ xs
  take-drop zero xs = refl
  take-drop (suc n) [] = refl
  take-drop (suc n) (x ∷ xs) = ap (λ l. x ∷ l) (take-drop n xs)

  length-drop : (n : ℕ) (xs : List A) → length (drop n xs) ≤ length xs
  length-drop zero xs = omega arith
  length-drop (suc n) [] = omega arith
  length-drop (suc n) (x ∷ xs) = omega (arith, length-drop n xs)

  pub drop_lt : (n : ℕ) (xs : List A) → n < length xs → suc (length (drop (suc n) xs)) ≤ length xs
  drop_lt n [] h = absurd (omega arith)
  drop_lt n (x ∷ xs) h = omega (arith, length-drop n xs)

pub select-true : {A : Type 0} (xs : List A) → select (λ x. true) xs ≡ xs
select-true [] = refl
select-true (x ∷ xs) = ap (λ l. x ∷ l) (select-true xs)

module _ (coding : Coding) (k : ℕ) (rest : List Thread) where
  pub page_last :
      ltb k (length rest) ≡ false
      → page coding k (take (suc k) rest) ≡ record { threads = rest; next_cursor = "" }
  page_last h = rw (take_short k rest h, h) refl

  pub page_more :
      ltb k (length rest) ≡ true
      → page coding k (take (suc k) rest)
        ≡ record { threads = take k rest; next_cursor = cursor_of coding (take k rest) }
  page_more h = rw (length-take-suc k rest, h, take-take-suc k rest) refl

module _ (coding : Coding) (laws : IsCoding coding) where
  -- A cursor is read back.
  pub decode-encode :
      (t : ℕ) (id : String)
      → decode_thread_cursor coding (encode_thread_cursor coding t id) ≡ some (t, id)
  unfolding decode_thread_cursor encode_thread_cursor
  decode-encode t id =
      rw
        (
          laws.decodes (String.◌++◌ (coding.format t) (String.◌++◌ "|" id)),
          split_bar-append (coding.format t) id (laws.no_bar t),
          laws.parses t,
        )
        refl

  pub encode_not_empty : (t : ℕ) (id : String) → (encode_thread_cursor coding t id == "") ≡ false
  unfolding encode_thread_cursor
  encode_not_empty t id = laws.not_empty _ (barred_not_empty (coding.format t) id)

  -- The last row of a page, and the cursor behind it.
  pub take_last :
      (n : ℕ) (xs : List Thread)
      → n < length xs
      → (pre : List Thread) × (x : Thread) × (xs ≡ pre ++ x ∷ drop (suc n) xs)
        × (cursor_of coding (take (suc n) xs) ≡ encode_thread_cursor coding x.created_at x.id)
  take_last n [] h = absurd (omega arith)
  take_last zero (x ∷ xs) h = ([], x, refl, refl)
  take_last (suc n) (x ∷ []) h = absurd (omega arith)
  take_last (suc n) (x ∷ y ∷ xs) h =
      let (pre, z, split, last) = take_last n (y ∷ xs) (omega arith) in
      (x ∷ pre, z, ap (λ l. x ∷ l) split, last)
