-- ===== src/Tools/CodeBlocks.antt =====
-- internal/tools/rendezvous/codeblocks.go: the fenced blocks of a Markdown body.
pub mod File
use Prim.Native.String
use mcp_symposium.Prelude.{
  ℕ, zero, suc, String, Bool, ◌&&◌, Option, none, some, List, [], ◌∷◌, ◌==◌, length, trim_space,
  if◌then◌else◌,
}
use mcp_symposium.Encoding.{Bytes, bytes_of, hex}
use mcp_symposium.BoardSecret.Seen.{split_lines}
use mcp_symposium.Storage.Mention.Scan.{is_tick}

pub record CodeBlock : Type 0 where
  pub index : ℕ
  pub lang : String
  pub bytes : ℕ
  pub sha256 : String

-- strings.HasPrefix and strings.TrimPrefix with "```"
abbrev pub after_fence : String → Option String
after_fence String.[] = none
after_fence (String.◌∷◌ c String.[]) = none
after_fence (String.◌∷◌ c (String.◌∷◌ d String.[])) = none
after_fence (String.◌∷◌ c (String.◌∷◌ d (String.◌∷◌ e s))) =
    if is_tick c && is_tick d && is_tick e then some s else none

abbrev pub is_closing : String → Bool
is_closing line = trim_space line == "```"

-- the lines up to a closing fence or the end, and those behind
abbrev pub read_content : List String → List String × List String
read_content [] = ([], [])
read_content (l ∷ ls) =
    let (content, rest) = read_content ls in if is_closing l then ([], ls) else (l ∷ content, rest)

-- strings.Join(content, "\n")
abbrev pub join_lines : List String → String
join_lines [] = ""
join_lines (l ∷ []) = l
join_lines (l ∷ m ∷ ls) = String.◌++◌ l (String.◌++◌ "\n" (join_lines (m ∷ ls)))

-- SHA-256 is the standard library's
module _ (sum : Bytes → Bytes) where
  abbrev pub block_of : ℕ → String → String → CodeBlock
  block_of index lang raw = record {
    index = index;
    lang = lang;
    bytes = String.len raw;
    sha256 = hex (sum (bytes_of raw));
  }

  -- what a line comes to, by what is behind its fence: a block or none, idx, and the lines left
  abbrev pub at_line : ℕ → List String → Option String → List CodeBlock × ℕ × List String
  at_line idx ls none = ([], idx, ls)
  at_line idx ls (some info) =
      let (content, rest) = read_content ls in
      (block_of idx (trim_space info) (String.◌++◌ (join_lines content) "\n") ∷ [], suc idx, rest)

  abbrev pub put : List CodeBlock → List CodeBlock → List CodeBlock
  put [] more = more
  put (b ∷ bs) more = b ∷ more

  -- the outer loop, with fuel: each turn takes at least a line
  unfoldable pub blocks_from : ℕ → ℕ → List String → List CodeBlock
  blocks_from zero idx ls = []
  blocks_from (suc fuel) idx [] = []
  blocks_from (suc fuel) idx (l ∷ ls) =
      let (found, idx', ls') = at_line idx ls (after_fence l) in
      let more = blocks_from fuel idx' ls' in put found more

  -- the loop with as much fuel as there are lines
  abbrev pub blocks_of_lines : ℕ → List String → List CodeBlock
  blocks_of_lines idx ls = blocks_from (length ls) idx ls

  -- extractCodeBlocks
  unfoldable pub extract_code_blocks : String → List CodeBlock
  extract_code_blocks body = blocks_of_lines 0 (split_lines body)
