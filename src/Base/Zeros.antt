-- ===== src/Base/Zeros.antt =====
-- `leading_zeros` of machine words, and the power of two below a word.
use Prim.Native.Nat.{ℕ, zero, suc, ◌+◌, ◌^◌, ◌≤◌, ◌<◌}
use mathlib.Core.Path.{◌≡◌}
use native.Mathlib.Omega.{arith}
use native.Mathlib.Decide.{dec_lt}
use lalah.Base.Tests.{ltb, if◌then◌else◌, lt→ltb, le→ltb}

-- `leading_zeros` of a word of `bits` bits.
unfoldable pub leading_zeros : (bits n : ℕ) → ℕ
leading_zeros zero n = 0
leading_zeros (suc bits) n =
    let rest = leading_zeros bits n in if ltb n (2 ^ bits) then suc rest else 0

-- The highest one of a word stands at place `k`, behind all its leading zeroes.
pub leading_zeros_lem :
    (bits n : ℕ)
    → 0 < n
    → n < 2 ^ bits
    → (k : ℕ) × (leading_zeros bits n + 1 + k ≡ bits) × (2 ^ k ≤ n) × (n < 2 ^ suc k)
unfolding leading_zeros
leading_zeros_lem zero n pos h = absurd (omega arith)
leading_zeros_lem (suc bits) n pos h = elim (dec_lt n (2 ^ bits)) [
  | yes low ↦
      let (k, a, b, c) = leading_zeros_lem bits n pos low in
      (k, rw (lt→ltb n (2 ^ bits) low) (omega (arith, a)), b, c)
  | no high ↦ (bits, rw (le→ltb n (2 ^ bits) (omega arith)) (omega arith), omega arith, h)
]
