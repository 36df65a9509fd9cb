-- ===== src/BoardSecret/Flags.antt =====
-- cmd/board-secret/main.go: the flags, and strconv.Atoi, which reads the one that is a number.
use Prim.Native.Char.{code}
use Prim.Native.Nat.{◌^◌}
use Prim.Native.String
use mcp_symposium.Prelude.{
  ℕ, zero, suc, ◌+◌, ◌-◌, ◌*◌, String, Bool, true, false, ◌&&◌, ◌||◌, Option, none, some, List, [],
  ◌∷◌, is_some, leb, nat_eq, ◌==◌, if◌then◌else◌,
}
use mcp_symposium.Encoding.{ℤ, pos, negsuc}
use mcp_symposium.Storage.Agents.{cut_prefix}

-- what stands behind a flag, or behind its `=`; a flag that stands last has no value
abbrev value_or : Option String → List String → Bool → String → String
value_or (some v) (next ∷ args) true rest = next
value_or none (next ∷ args) true rest = next
value_or (some v) args is_name rest = v
value_or none args is_name rest = rest

-- flagValue
unfoldable pub flag_value : List String → String → String → String
flag_value [] name default = default
flag_value (a ∷ args) name default =
    value_or (cut_prefix (String.◌++◌ name "=") a) args (a == name) (flag_value args name default)

-- hasFlag
unfoldable pub has_flag : List String → String → Bool
has_flag [] name = false
has_flag (a ∷ args) name = if a == name then true else has_flag args name

-- strings.Contains(a, "=")
abbrev has_equals : String → Bool
has_equals String.[] = false
has_equals (String.◌∷◌ c s) = nat_eq (code c) b'=' || has_equals s

-- the loop of lastPositional: whether the next argument is a flag's value, and the last one found
abbrev pub positional : Bool → String → List String → String
positional skip found [] = found
positional true found (a ∷ args) = positional false found args
positional false found (a ∷ args) =
    if is_some (cut_prefix "--" a)
    then positional (if has_equals a then false else true) found args
    else positional false a args

-- lastPositional
unfoldable pub last_positional : List String → String
last_positional args = positional false "" args

-- the digits of a number of at most m
abbrev scan : ℕ → ℕ → String → Option ℕ
scan m n String.[] = if leb n m then some n else none
scan m n (String.◌∷◌ c s) =
    if leb b'0' (code c) && leb (code c) b'9' then scan m (n * 10 + (code c - b'0')) s else none

abbrev number : ℕ → String → Option ℕ
number m String.[] = none
number m (String.◌∷◌ c s) = scan m 0 (String.◌∷◌ c s)

abbrev negated : ℕ → ℤ
negated zero = pos 0
negated (suc n) = negsuc n

abbrev as_pos : Option ℕ → Option ℤ
as_pos none = none
as_pos (some n) = some (pos n)

abbrev as_neg : Option ℕ → Option ℤ
as_neg none = none
as_neg (some n) = some (negated n)

-- strconv.Atoi: a number that does not fit in an int is an error
unfoldable pub atoi : String → Option ℤ
atoi String.[] = none
atoi (String.◌∷◌ c s) =
    if nat_eq (code c) b'-'
    then as_neg (number (2 ^ 63) s)
    else if nat_eq (code c) b'+'
    then as_pos (number (2 ^ 63 - 1) s)
    else as_pos (number (2 ^ 63 - 1) (String.◌∷◌ c s))
