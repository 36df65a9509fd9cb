-- ===== src/Tools/CodeBlocks/File.antt =====
-- A file between two fences is described by its own length and hash, and the loop over the lines
-- never runs out of fuel.
use Prim.Native.String
use mcp_symposium.Prelude.{
  ℕ, zero, suc, ◌≤◌, String, ◌≡◌, refl, ap, sym, ◌∙◌, Bool, true, false, ◌||◌, Option, none, some,
  List, [], ◌∷◌, ◌++◌, any, length, arith, trim_space, Bool-cases, inl, inr, length-append,
}
use text.Mathlib.TextLemmas.{nil-append, cons-append, append-nil, append_assoc}
use mcp_symposium.Encoding.{Bytes}
use mcp_symposium.Envelope.Guards.{or_false}
use mcp_symposium.BoardSecret.Seen.{split_lines}
use mcp_symposium.BoardSecret.Lines.{
  has_newline, split_lines-append, is_complete-line, ended_lines-line,
}
use mcp_symposium.Tools.CodeBlocks.{
  after_fence, is_closing, read_content, join_lines, block_of, at_line, put, blocks_from,
  blocks_of_lines, extract_code_blocks,
}

-- a text whose every line is ended
abbrev pub file_of : List String → String
file_of [] = ""
file_of (l ∷ ls) = String.◌++◌ (String.◌++◌ l "\n") (file_of ls)

-- not a single line, or a line that would end a block
abbrev pub is_no_content : String → Bool
is_no_content l = has_newline l || is_closing l

-- the body with the file between its fences, and whatever follows
abbrev pub fenced : String → List String → String → String
fenced lang content tail =
    String.◌++◌ (String.◌++◌ (String.◌++◌ "```" lang) "\n")
      (String.◌++◌ (file_of content) (String.◌++◌ (String.◌++◌ "```" "\n") tail))

split_lines-line :
    (l t : String)
    → has_newline l ≡ false
    → split_lines (String.◌++◌ (String.◌++◌ l "\n") t) ≡ l ∷ split_lines t
split_lines-line l t one =
    split_lines-append (String.◌++◌ l "\n") t (is_complete-line l)
    ∙ ap (λ ls. ls ++ split_lines t) (ended_lines-line l one)

split_lines-file :
    (content : List String) (t : String)
    → any is_no_content content ≡ false
    → split_lines (String.◌++◌ (file_of content) t) ≡ content ++ split_lines t
split_lines-file [] t ok = ap split_lines (nil-append t)
split_lines-file (l ∷ ls) t ok =
    let (here, there) = or_false (is_no_content l) (any is_no_content ls) ok in
    let (one, still) = or_false (has_newline l) (is_closing l) here in
    ap split_lines (append_assoc (String.◌++◌ l "\n") (file_of ls) t)
    ∙ split_lines-line l (String.◌++◌ (file_of ls) t) one
    ∙ ap (λ rest. l ∷ rest) (split_lines-file ls t there)

closing : is_closing "```" ≡ true
unfolding trim_space
closing = refl

read_content-file :
    (content rest : List String)
    → any is_no_content content ≡ false
    → read_content (content ++ "```" ∷ rest) ≡ (content, rest)
read_content-file [] rest ok = rw closing refl
read_content-file (l ∷ ls) rest ok =
    let (here, there) = or_false (is_no_content l) (any is_no_content ls) ok in
    let (one, still) = or_false (has_newline l) (is_closing l) here in
    rw (still, read_content-file ls rest there) refl

join_lines-file :
    (l : String) (ls : List String) → String.◌++◌ (join_lines (l ∷ ls)) "\n" ≡ file_of (l ∷ ls)
join_lines-file l [] = sym (append-nil (String.◌++◌ l "\n"))
join_lines-file l (m ∷ ls) =
    append_assoc l (String.◌++◌ "\n" (join_lines (m ∷ ls))) "\n"
    ∙ ap (String.◌++◌ l) (append_assoc "\n" (join_lines (m ∷ ls)) "\n")
    ∙ sym (append_assoc l "\n" (String.◌++◌ (join_lines (m ∷ ls)) "\n"))
    ∙ ap (String.◌++◌ (String.◌++◌ l "\n")) (join_lines-file m ls)

fence :
    (lang : String) → String.◌++◌ "```" lang ≡ String.◌∷◌ "`" (String.◌∷◌ "`" (String.◌∷◌ "`" lang))
fence lang =
    cons-append "`" "``" lang
    ∙ ap (String.◌∷◌ "`") (
        cons-append "`" "`" lang
        ∙ ap (String.◌∷◌ "`") (cons-append "`" "" lang ∙ ap (String.◌∷◌ "`") (nil-append lang)))

read_content-le : (ls : List String) → length (read_content ls).1 ≤ length ls
read_content-le [] = omega arith
read_content-le (l ∷ ls) = elim (Bool-cases (is_closing l)) [
  | inl here ↦ rw here (omega arith)
  | inr other ↦ let h = read_content-le ls in rw other (omega arith)
]

module _ (sum : Bytes → Bytes) where
  at_line-le :
      (idx : ℕ) (ls : List String) (info : Option String)
      → length (at_line sum idx ls info).2 ≤ length ls
  at_line-le idx ls none = omega arith
  at_line-le idx ls (some info) = read_content-le ls

  -- fuel above the number of lines changes nothing
  blocks_from_enough :
      (fuel more idx : ℕ) (ls : List String)
      → length ls ≤ fuel
      → length ls ≤ more
      → blocks_from sum fuel idx ls ≡ blocks_from sum more idx ls
  unfolding blocks_from
  blocks_from_enough zero zero idx [] h k = refl
  blocks_from_enough zero (suc more) idx [] h k = refl
  blocks_from_enough (suc fuel) zero idx [] h k = refl
  blocks_from_enough (suc fuel) (suc more) idx [] h k = refl
  blocks_from_enough zero more idx (l ∷ ls) h k = absurd (omega arith)
  blocks_from_enough (suc fuel) zero idx (l ∷ ls) h k = absurd (omega arith)
  blocks_from_enough (suc fuel) (suc more) idx (l ∷ ls) h k =
      let turn = at_line sum idx ls (after_fence l) in
      let less = at_line-le idx ls (after_fence l) in
      ap (put sum turn.0) (blocks_from_enough fuel more turn.1 turn.2 (omega arith) (omega arith))

  -- The loop over the lines does not end for want of fuel: any fuel above the number of lines gives
  -- the same blocks.
  pub extract_code_blocks_enough :
      (fuel : ℕ) (body : String)
      → length (split_lines body) ≤ fuel
      → blocks_from sum fuel 0 (split_lines body) ≡ extract_code_blocks sum body
  unfolding extract_code_blocks
  extract_code_blocks_enough fuel body h =
      blocks_from_enough fuel (length (split_lines body)) 0 (split_lines body) h (omega arith)

  blocks_of_lines-fence :
      (idx : ℕ) (lang l : String) (ls rest : List String)
      → any is_no_content (l ∷ ls) ≡ false
      → blocks_of_lines sum idx (String.◌++◌ "```" lang ∷ ((l ∷ ls) ++ "```" ∷ rest))
        ≡ block_of sum idx (trim_space lang) (file_of (l ∷ ls)) ∷ blocks_of_lines sum (suc idx) rest
  unfolding blocks_from
  blocks_of_lines-fence idx lang l ls rest ok =
      let lines = (l ∷ ls) ++ "```" ∷ rest in
      let b = block_of sum idx (trim_space lang) (file_of (l ∷ ls)) in
      let n = length-append ls ("```" ∷ rest) in
      let turn : at_line sum idx lines (after_fence (String.◌++◌ "```" lang))
          ≡ (b ∷ [], suc idx, rest) =
        ap (λ s. at_line sum idx lines (after_fence s)) (fence lang)
        ∙ rw (read_content-file (l ∷ ls) rest ok, join_lines-file l ls) refl in
      ap (λ t. put sum t.0 (blocks_from sum (length lines) t.1 t.2)) turn
      ∙ ap (λ more. b ∷ more)
          (blocks_from_enough (length lines) (length rest) (suc idx) rest (omega arith)
            (omega arith))

  -- A file whose lines are all ended, of one line at least and with none that would close the block,
  -- put between fences at the start of a body, is listed first, under the trimmed language, with the
  -- length of its bytes and their SHA-256; the rest of the list is that of the text behind it.
  pub extract_code_blocks-fenced :
      (lang l : String) (ls : List String) (tail : String)
      → has_newline lang ≡ false
      → any is_no_content (l ∷ ls) ≡ false
      → extract_code_blocks sum (fenced lang (l ∷ ls) tail)
        ≡ block_of sum 0 (trim_space lang) (file_of (l ∷ ls))
          ∷ blocks_of_lines sum 1 (split_lines tail)
  unfolding extract_code_blocks
  extract_code_blocks-fenced lang l ls tail one ok =
      let lines : split_lines (fenced lang (l ∷ ls) tail)
          ≡ String.◌++◌ "```" lang ∷ ((l ∷ ls) ++ "```" ∷ split_lines tail) =
        split_lines-line (String.◌++◌ "```" lang) _ (ap has_newline (fence lang) ∙ one)
        ∙ ap (λ more. String.◌++◌ "```" lang ∷ more)
            (split_lines-file (l ∷ ls) _ ok
              ∙ ap (λ more. (l ∷ ls) ++ more) (split_lines-line "```" tail refl)) in
      ap (blocks_of_lines sum 0) lines ∙ blocks_of_lines-fence 0 lang l ls (split_lines tail) ok
