-- ===== src/Storage/Mention/Scan.antt =====
-- internal/storage/thread_repo.go: stripCodeRegions and mentionPattern. A regular expression of the
-- source is a function that gives the length of its match at the start of a text.
use Prim.Native.Char.{Char, code}
use mcp_symposium.Prelude.{
  ℕ, zero, suc, ◌+◌, ◌-◌, String, Bool, false, ◌&&◌, ◌||◌, Option, none, some, List, [], ◌∷◌, ltb,
  leb, nat_eq, if◌then◌else◌,
}
use mcp_symposium.Prelude.Rows.{option_map}

-- How many bytes of UTF-8 the character takes.
abbrev pub utf8_length : Char → ℕ
utf8_length c =
    if ltb (code c) 0x80
    then 1
    else if ltb (code c) 0x800
    then 2
    else if ltb (code c) 0x10000
    then 3
    else 4

abbrev pub pad : ℕ → String → String
pad zero s = s
pad (suc n) s = String.◌∷◌ " " (pad n s)

abbrev pub is_tick : Char → Bool
is_tick c = nat_eq (code c) 96

pub opens_fence : String → Bool
opens_fence (String.◌∷◌ c (String.◌∷◌ d (String.◌∷◌ e s))) = is_tick c && is_tick d && is_tick e
opens_fence _ = false

-- up to the end of the next fence
pub closing_fence : String → Option ℕ
unfolding opens_fence
closing_fence String.[] = none
closing_fence (String.◌∷◌ c s) =
    if opens_fence (String.◌∷◌ c s) then some 3 else option_map suc (closing_fence s)

-- (?s)```.*?```
pub fenced_code_block : String → Option ℕ
unfolding closing_fence
fenced_code_block (String.◌∷◌ c (String.◌∷◌ d (String.◌∷◌ e s))) =
    if is_tick c && is_tick d && is_tick e then option_map (λ n. 3 + n) (closing_fence s) else none
fenced_code_block _ = none

pub closing_tick : String → Option ℕ
closing_tick String.[] = none
closing_tick (String.◌∷◌ c s) =
    if is_tick c
    then some 1
    else if nat_eq (code c) 10
    then none
    else option_map suc (closing_tick s)

-- `[^`\n]*`
pub inline_code_span : String → Option ℕ
unfolding closing_tick
inline_code_span String.[] = none
inline_code_span (String.◌∷◌ c s) = if is_tick c then option_map suc (closing_tick s) else none

-- ReplaceAllStringFunc with blankOut; the number is what is left of the match that is being blanked
pub blank_matches : (String → Option ℕ) → ℕ → String → String
blank_matches match left String.[] = String.[]
blank_matches match (suc left) (String.◌∷◌ c s) = pad (utf8_length c) (blank_matches match left s)
blank_matches match zero (String.◌∷◌ c s) = elim (match (String.◌∷◌ c s)) [
  | some n ↦ pad (utf8_length c) (blank_matches match (n - 1) s)
  | none ↦ String.◌∷◌ c (blank_matches match zero s)
]

unfoldable pub strip_code_regions : String → String
unfolding blank_matches fenced_code_block inline_code_span
strip_code_regions body = blank_matches inline_code_span 0 (blank_matches fenced_code_block 0 body)

-- [a-zA-Z0-9_-]
abbrev pub is_handle : ℕ → Bool
is_handle c =
    (leb b'a' c && leb c b'z')
    || (leb b'A' c && leb c b'Z')
    || (leb b'0' c && leb c b'9')
    || nat_eq c b'_'
    || nat_eq c b'-'

pub handle_prefix : String → String
handle_prefix String.[] = String.[]
handle_prefix (String.◌∷◌ c s) =
    if is_handle (code c) then String.◌∷◌ c (handle_prefix s) else String.[]

abbrev pub cons_nonempty : String → List String → List String
cons_nonempty String.[] names = names
cons_nonempty (String.◌∷◌ c s) names = String.◌∷◌ c s ∷ names

-- The groups of all matches of @([a-zA-Z0-9_-]+). A match holds no second @, so the search goes on
-- behind the @.
unfoldable pub mention_names : String → List String
unfolding handle_prefix
mention_names String.[] = []
mention_names (String.◌∷◌ c s) =
    if nat_eq (code c) b'@'
    then cons_nonempty (handle_prefix s) (mention_names s)
    else mention_names s
