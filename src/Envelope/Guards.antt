-- ===== src/Envelope/Guards.antt =====
-- What a result that passed says of the guards before it.
use mcp_symposium.Prelude.{
  ℕ, ◌≤◌, ◌<◌, ◌≡◌, refl, String, Bool, true, false, not, ◌||◌, Option, none, some, arith, ◌/=◌,
  eq_iff, if◌then◌else◌,
}
use mcp_symposium.Encoding.{Bytes, ℤ, pos, negsuc}
use mcp_symposium.Envelope.Sealing.{
  Fault, Checked, passed, fault, within, is_two, signed_or, opened, if_signed,
}

pub guard_passed :
    {A : Type 0} (b : Bool) (f : Fault) {go : Checked A} {p : A}
    → (if b then fault f else go) ≡ passed p
    → (b ≡ false) × (go ≡ passed p)
guard_passed true f h = cc
guard_passed false f h = (refl, h)

pub opened_passed : (o : Option Bytes) {p : Bytes} → opened o ≡ passed p → o ≡ some p
opened_passed none h = cc
opened_passed (some c) h = cc

pub within_pos :
    (z : ℤ) (m : ℕ) → not (within z m) ≡ false → (n : ℕ) × (z ≡ pos n) × (0 < n) × (n ≤ m)
within_pos (pos n) m h = (n, refl, ground (arith, h), ground (arith, h))
within_pos (negsuc n) m h = cc

pub is_two_pos : (z : ℤ) → not (is_two z) ≡ false → z ≡ pos 2
is_two_pos (pos n) h = ground (arith, h)
is_two_pos (negsuc n) h = cc

pub same_of : (s t : String) → (s /= t) ≡ false → s ≡ t
same_of s t h = ground (arith, eq_iff s t)

pub or_false : (a b : Bool) → (a || b) ≡ false → (a ≡ false) × (b ≡ false)
or_false true b h = cc
or_false false b h = (refl, h)

pub if_signed_passed :
    (c : Checked Unit) {go : Checked Bytes} {p : Bytes}
    → if_signed c go ≡ passed p
    → (c ≡ passed tt) × (go ≡ passed p)
if_signed_passed (passed u) h = (refl, h)
if_signed_passed (fault f) h = cc

pub signed_or_passed : (f : Fault) (c : Checked Bool) → signed_or f c ≡ passed tt → c ≡ passed true
signed_or_passed f (passed true) h = refl
signed_or_passed f (passed false) h = cc
signed_or_passed f (fault g) h = cc
