-- ===== src/Tools/WaitForActivity/Bounds.antt =====
-- How long a call waits.
use Prim.Native.Nat.{◌^◌}
use mcp_symposium.Prelude.{
  ℕ, ◌*◌, ◌≤◌, ◌<◌, ◌≡◌, refl, true, false, not, ◌||◌, ltb, arith, inl, inr, Bool-cases,
}
use mcp_symposium.Encoding.{ℤ, pos, negsuc, pos_part, ltb_ℤ, int64, mul64}
use mcp_symposium.Envelope.Format.{second}
use mcp_symposium.Tools.WaitForActivity.{wait_max_timeout, at_most, wait_timeout}

at_most-le : (b t : ℤ) → ltb_ℤ b (at_most b t) ≡ false
at_most-le b t = ground arith

-- A number that fits is kept.
int64_fits : (k : ℕ) → k < 2 ^ 63 → int64 k ≡ pos k
int64_fits k h = ground (arith, h)

at_most-ge : (t : ℕ) → second ≤ t → ltb_ℤ (at_most wait_max_timeout (pos t)) (pos second) ≡ false
at_most-ge t h = ground (arith, h)

lower :
    (n : ℕ)
    → 0 < n
    → n ≤ 9223372036
    → ltb_ℤ (at_most wait_max_timeout (mul64 (pos n) second)) (pos second) ≡ false
lower n many small =
    rw (int64_fits (n * second) (omega (arith, small)))
      (at_most-ge (n * second) (omega (arith, many)))

-- A call never waits longer than 90 seconds, whatever number is asked for; and it waits at least a
-- second, or the number is larger than 9223372036, whose product with a second overflows.
pub wait_timeout-le :
    (seconds : ℤ)
    → (ltb_ℤ wait_max_timeout (wait_timeout seconds) ≡ false)
      × ((ltb 9223372036 (pos_part seconds) || not (ltb_ℤ (wait_timeout seconds) (pos second)))
          ≡ true)
unfolding wait_timeout
wait_timeout-le (negsuc n) = (refl, refl)
wait_timeout-le (pos n) = elim (Bool-cases (ltb 0 n)) [
  | inl asked ↦ rw asked (
    at_most-le wait_max_timeout (mul64 (pos n) second),
    elim (Bool-cases (ltb 9223372036 n)) [
      | inl large ↦ rw large refl
      | inr small ↦ rw (small, lower n (ground (arith, asked)) (ground (arith, small))) refl
    ],
  )
  | inr none_asked ↦ rw none_asked (refl, ground arith)
]
