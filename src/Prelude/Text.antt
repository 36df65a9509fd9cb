-- ===== src/Prelude/Text.antt =====
-- Go's `strings` functions that the program calls, over texts as sequences of characters.
use Prim.Native.Nat.{ℕ}
use Prim.Native.Char.{Char, code}
use Prim.Native.String.{String}
use mathlib.Core.Bool.{Bool, ◌&&◌, ◌||◌}
use mcp_symposium.Prelude.Tests.{leb, nat_eq, if◌then◌else◌}

-- unicode.IsSpace
abbrev pub is_space : ℕ → Bool
is_space c =
    (leb 9 c && leb c 13)
    || nat_eq c 32
    || nat_eq c 0x85
    || nat_eq c 0xA0
    || nat_eq c 0x1680
    || (leb 0x2000 c && leb c 0x200a)
    || nat_eq c 0x2028
    || nat_eq c 0x2029
    || nat_eq c 0x202f
    || nat_eq c 0x205f
    || nat_eq c 0x3000

pub trim_left : String → String
trim_left String.[] = String.[]
trim_left (String.◌∷◌ c s) = if is_space (code c) then trim_left s else String.◌∷◌ c s

-- a space goes only if nothing but spaces follows
abbrev pub cons_unless_blank : Char → String → String
cons_unless_blank c String.[] = if is_space (code c) then String.[] else String.◌∷◌ c String.[]
cons_unless_blank c (String.◌∷◌ d s) = String.◌∷◌ c (String.◌∷◌ d s)

pub trim_right : String → String
trim_right String.[] = String.[]
trim_right (String.◌∷◌ c s) = cons_unless_blank c (trim_right s)

-- strings.TrimSpace
unfoldable pub trim_space : String → String
unfolding trim_left trim_right
trim_space s = trim_right (trim_left s)
