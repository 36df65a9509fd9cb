-- ===== src/Encoding.antt =====
-- What the secret handoff uses of Go's standard library on bytes and texts: UTF-8, `%d`, encoding/hex
-- and encoding/base64, fixed-size arrays, and int64 with its wrap-around.
use Prim.Native.Char.{Char, code}
use Prim.Native.Nat.{◌/◌, ◌%◌, ◌^◌}
use Prim.Native.String
use mcp_symposium.Prelude.{
  ℕ, zero, suc, ◌+◌, ◌-◌, ◌*◌, ◌≤◌, String, ◌≡◌, refl, Bool, List, [], ◌∷◌, ◌++◌, arith, length,
  ltb, leb, if◌then◌else◌,
}

-- []byte: each entry is below 256
abbrev pub Bytes : Type 0
Bytes = List ℕ

-- int and int64; `negsuc n` is -(n + 1)
pub data ℤ : Type 0 where
  pos : ℕ → ℤ
  negsuc : ℕ → ℤ

-- a - b
abbrev pub sub_ℕ : ℕ → ℕ → ℤ
sub_ℕ a b = if leb b a then pos (a - b) else negsuc (b - a - 1)

abbrev pub pos_part : ℤ → ℕ
pos_part (pos n) = n
pos_part (negsuc n) = 0

abbrev pub neg_part : ℤ → ℕ
neg_part (pos n) = 0
neg_part (negsuc n) = suc n

abbrev pub ltb_ℤ : ℤ → ℤ → Bool
ltb_ℤ a b = ltb (pos_part a + neg_part b) (pos_part b + neg_part a)

-- two's complement: what is left of n in 64 bits
abbrev pub int64 : ℕ → ℤ
int64 n = let r = n % 2 ^ 64 in if ltb r (2 ^ 63) then pos r else negsuc (2 ^ 64 - 1 - r)

-- z * k in 64 bits
abbrev pub mul64 : ℤ → ℕ → ℤ
mul64 (pos n) k = int64 (n * k)
mul64 (negsuc n) k = int64 ((2 ^ 64 - 1 - n % 2 ^ 64) * k)

-- the UTF-8 of a character
abbrev pub char_bytes : ℕ → Bytes
char_bytes c =
    if ltb c 128
    then c ∷ []
    else if ltb c 2048
    then (192 + c / 64) ∷ (128 + c % 64) ∷ []
    else if ltb c 65536
    then (224 + c / 4096) ∷ (128 + c / 64 % 64) ∷ (128 + c % 64) ∷ []
    else (240 + c / 262144) ∷ (128 + c / 4096 % 64) ∷ (128 + c / 64 % 64) ∷ (128 + c % 64) ∷ []

-- []byte(s)
unfoldable pub bytes_of : String → Bytes
bytes_of String.[] = []
bytes_of (String.◌∷◌ c s) = char_bytes (code c) ++ bytes_of s

-- the decimal digits of n before what is there; the fuel is spent at the last digit at the earliest
unfoldable pub digits : ℕ → ℕ → String → String
digits zero n out = out
digits (suc fuel) zero out = out
digits (suc fuel) (suc n) out =
    digits fuel (suc n / 10) (String.◌∷◌ (String.char_at "0123456789" (suc n % 10)) out)

-- Fuel of n is enough for the digits of n: more changes nothing.
pub digits_enough :
    (fuel more n : ℕ) (out : String) → n ≤ fuel → n ≤ more → digits more n out ≡ digits fuel n out
unfolding digits
digits_enough zero zero n out h k = refl
digits_enough zero (suc more) zero out h k = refl
digits_enough zero (suc more) (suc n) out h k = absurd (omega arith)
digits_enough (suc fuel) zero zero out h k = refl
digits_enough (suc fuel) zero (suc n) out h k = absurd (omega arith)
digits_enough (suc fuel) (suc more) zero out h k = refl
digits_enough (suc fuel) (suc more) (suc n) out h k =
    digits_enough fuel more (suc n / 10) (String.◌∷◌ (String.char_at "0123456789" (suc n % 10)) out)
      (omega arith) (omega arith)

-- %d
unfoldable pub decimal : ℤ → String
unfolding digits
decimal (pos zero) = "0"
decimal (pos (suc n)) = digits (suc n) (suc n) ""
decimal (negsuc n) = String.◌++◌ "-" (digits (suc n) (suc n) "")

abbrev pub hex_digit : ℕ → Char
hex_digit n = String.char_at "0123456789abcdef" n

-- hex.EncodeToString
unfoldable pub hex : Bytes → String
hex [] = ""
hex (b ∷ bs) = String.◌∷◌ (hex_digit (b / 16)) (String.◌∷◌ (hex_digit (b % 16)) (hex bs))

abbrev pub base64_digit : ℕ → Char
base64_digit n = String.char_at "ABCDEFGHIJKLMNOPQRSTUVWXYZabcdefghijklmnopqrstuvwxyz0123456789+/" n

-- base64.StdEncoding.EncodeToString: three bytes become four characters, with padding
unfoldable pub base64 : Bytes → String
base64 [] = ""
base64 (a ∷ []) = String.◌∷◌ (base64_digit (a / 4)) (String.◌∷◌ (base64_digit (a % 4 * 16)) "==")
base64 (a ∷ b ∷ []) =
    String.◌∷◌ (base64_digit (a / 4))
      (String.◌∷◌ (base64_digit (a % 4 * 16 + b / 16)) (String.◌∷◌ (base64_digit (b % 16 * 4)) "="))
base64 (a ∷ b ∷ c ∷ bs) = String.◌∷◌ (base64_digit (a / 4)) (
    String.◌∷◌ (base64_digit (a % 4 * 16 + b / 16)) (
      String.◌∷◌ (base64_digit (b % 16 * 4 + c / 64))
        (String.◌∷◌ (base64_digit (c % 64)) (base64 bs))))

-- var out [n]byte; copy(out[:], bs)
unfoldable pub array : ℕ → Bytes → Bytes
array zero bs = []
array (suc n) [] = 0 ∷ array n []
array (suc n) (b ∷ bs) = b ∷ array n bs

-- Bytes that fit are copied as they are.
pub array-length : (bs : Bytes) (n : ℕ) → length bs ≡ n → array n bs ≡ bs
unfolding array
array-length [] zero h = refl
array-length [] (suc n) h = absurd (omega arith)
array-length (b ∷ bs) zero h = absurd (omega arith)
array-length (b ∷ bs) (suc n) h = rw (array-length bs n (omega arith)) refl
