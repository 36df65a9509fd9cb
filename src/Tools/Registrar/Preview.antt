-- ===== src/Tools/Registrar/Preview.antt =====
-- The size of an audit row's preview.
use Prim.Native.Char.{Char, len_utf8, len_utf8_def, width}
use Prim.Native.Nat.{Ordering}
use Prim.Native.String
use mcp_symposium.Prelude.{
  ℕ, zero, suc, ◌*◌, ◌≤◌, ◌<◌, ◌≡◌, refl, ◌∙◌, ap, String, true, arith, ltb, if◌then◌else◌, inl,
  inr, Bool-cases,
}
use mcp_symposium.Tools.Registrar.{first_chars, max_preview, preview}

width_le : (a b c : Ordering) → width a b c ≤ 4
width_le Ordering.lt b c = omega arith
width_le Ordering.eq Ordering.lt c = omega arith
width_le Ordering.eq Ordering.eq Ordering.lt = omega arith
width_le Ordering.eq Ordering.eq Ordering.eq = omega arith
width_le Ordering.eq Ordering.eq Ordering.gt = omega arith
width_le Ordering.eq Ordering.gt Ordering.lt = omega arith
width_le Ordering.eq Ordering.gt Ordering.eq = omega arith
width_le Ordering.eq Ordering.gt Ordering.gt = omega arith
width_le Ordering.gt Ordering.lt c = omega arith
width_le Ordering.gt Ordering.eq Ordering.lt = omega arith
width_le Ordering.gt Ordering.eq Ordering.eq = omega arith
width_le Ordering.gt Ordering.eq Ordering.gt = omega arith
width_le Ordering.gt Ordering.gt Ordering.lt = omega arith
width_le Ordering.gt Ordering.gt Ordering.eq = omega arith
width_le Ordering.gt Ordering.gt Ordering.gt = omega arith

len_utf8-le : (c : Char) → len_utf8 c ≤ 4
len_utf8-le c = rw (len_utf8_def c) (width_le _ _ _)

-- A character takes at most four bytes.
len-count : (s : String) → String.len s ≤ 4 * String.count s
len-count String.[] = omega arith
len-count (String.◌∷◌ c s) =
    omega (arith, String.len.cons c s, String.count.cons c s, len_utf8-le c, len-count s)

count-first_chars : (n : ℕ) (s : String) → n ≤ String.count s → String.count (first_chars n s) ≡ n
unfolding first_chars
count-first_chars zero s h = String.count.nil
count-first_chars (suc n) String.[] h = absurd (omega (arith, String.count.nil, h))
count-first_chars (suc n) (String.◌∷◌ c s) h =
    String.count.cons c (first_chars n s)
    ∙ ap suc (count-first_chars n s (omega (arith, String.count.cons c s, h)))

-- The preview of an audit row is never longer than 4096 bytes: an output of at most that size is
-- kept whole, and of a longer one the first 1024 characters.
pub preview-le :
    (s : String)
    → (String.len (preview s) ≤ max_preview)
      × (preview s ≡ (if ltb max_preview (String.len s) then first_chars 1024 s else s))
unfolding preview
preview-le s = elim (Bool-cases (ltb max_preview (String.len s))) [
  | inl long ↦
      let many : 1024 < String.count s = ground (arith, long, len-count s) in
      let cut : ltb 1024 (String.count s) ≡ true = ground (arith, many) in
      let counted = count-first_chars 1024 s (omega (arith, many)) in
      rw (long, cut) (omega (arith, len-count (first_chars 1024 s), counted), refl)
  | inr short ↦ rw short (ground (arith, short), refl)
]
