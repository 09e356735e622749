-- ===== src/Base/Bits.antt =====
-- Powers of two on machine words: `count_ones`, `is_power_of_two`, and masks as remainders.
use Prim.Native.Nat.{ℕ, zero, suc, ◌+◌, ◌-◌, ◌*◌, ◌/◌, ◌%◌, ◌^◌, ◌≤◌, ◌<◌, min, bit_and, digits}
use Prim.Native.Nat.{bit_and-bitwise}
use mathlib.Core.Path.{◌≡◌, refl, ap, ap₂, ◌∙◌, sym}
use mathlib.Core.Bool.{Bool, true}
use native.Mathlib.Omega.{arith}
use native.Mathlib.Nat.{
  zero-mod, two-pow-succ, one-le-pow, mul-add-mod_self_left, mod-eq_of_lt, mod-lt,
}
use native.Mathlib.Nat.{div-add-mod}
use native.Mathlib.Decide.{dec_lt}
use lalah.Base.Tests.{◌==◌, ==_iff}

double_mod : (a m : ℕ) → 0 < m → a % (m + m) ≡ a / 2 % m * 2 + a % 2
double_mod a m h =
    ap (λ t. t % (m + m)) split
    ∙ mul-add-mod_self_left (m + m) (q / m) (q % m * 2 + a % 2)
    ∙ mod-eq_of_lt (omega (arith, mod-lt q h))
  where
    q : ℕ
    q = a / 2

    split : a ≡ (m + m) * (q / m) + (q % m * 2 + a % 2)
    split = omega (arith, div-add-mod q m)

-- A mask of ones against any number of digits that is enough.
masked : (count k x : ℕ) → x ≤ count → digits (λ _. zero) min count x (2 ^ k - 1) ≡ x % 2 ^ k
masked zero k x h = let nil : x ≡ 0 = omega arith in rw nil (sym (zero-mod (2 ^ k)))
masked (suc count) k zero h = sym (zero-mod (2 ^ k))
masked (suc count) zero (suc x) h =
    ap (λ d. d * 2 + min (suc x % 2) 0) (masked count zero (suc x / 2) (omega arith)) ∙ omega arith
masked (suc count) (suc k) (suc x) h =
    ap₂ (λ m b. digits (λ _. zero) min count (suc x / 2) m * 2 + min (suc x % 2) b) rest low
    ∙ ap (λ d. d * 2 + min (suc x % 2) 1) (masked count k (suc x / 2) (omega arith))
    ∙ ap (λ b. suc x / 2 % 2 ^ k * 2 + b) bit
    ∙ sym (double_mod (suc x) (2 ^ k) pos)
    ∙ ap (λ t. suc x % t) (sym (two-pow-succ k))
  where
    pos : 0 < 2 ^ k
    pos = one-le-pow k 2 (omega arith)

    bit : min (suc x % 2) 1 ≡ suc x % 2
    bit = omega arith

    rest : (2 ^ suc k - 1) / 2 ≡ 2 ^ k - 1
    rest = omega (arith, two-pow-succ k)

    low : (2 ^ suc k - 1) % 2 ≡ 1
    low = omega (arith, pos, two-pow-succ k)

-- A mask of `k` ones takes the remainder modulo `2 ^ k`.
pub bit_and_mask : (k a : ℕ) → bit_and a (2 ^ k - 1) ≡ a % 2 ^ k
bit_and_mask k a = bit_and-bitwise a (2 ^ k - 1) ∙ masked a k a (omega arith)

-- `count_ones` of a word of `bits` bits.
pub count_ones : ℕ → ℕ → ℕ
count_ones zero n = 0
count_ones (suc bits) n = n % 2 + count_ones bits (n / 2)

-- `usize::is_power_of_two`.
unfoldable pub is_power_of_two : ℕ → Bool
unfolding count_ones
is_power_of_two n = count_ones 64 n == 1

count_ones-eq-zero : (bits n : ℕ) → n < 2 ^ bits → count_ones bits n ≡ 0 → n ≡ 0
unfolding count_ones
count_ones-eq-zero zero n h e = omega arith
count_ones-eq-zero (suc bits) n h e =
    omega (arith, count_ones-eq-zero bits (n / 2) (omega (arith, two-pow-succ bits)) (omega arith))

count_ones-eq-one :
    (bits n : ℕ) → n < 2 ^ bits → count_ones bits n ≡ 1 → (k : ℕ) × (k < bits) × (n ≡ 2 ^ k)
unfolding count_ones
count_ones-eq-one zero n h e = absurd (omega arith)
count_ones-eq-one (suc bits) n h e = elim (dec_lt (n % 2) 1) [
  | yes even ↦
      let (k, lt, p) =
        count_ones-eq-one bits (n / 2) (omega (arith, two-pow-succ bits)) (omega arith) in
      (suc k, omega arith, omega (arith, two-pow-succ k))
  | no odd ↦
      let e' : n / 2 ≡ 0 =
        count_ones-eq-zero bits (n / 2) (omega (arith, two-pow-succ bits)) (omega arith) in
      (0, omega arith, omega arith)
]

-- A word that passes the test is a power of two below `2 ^ 64`.
pub is_power_of_two_sound :
    (n : ℕ) → n < 2 ^ 64 → is_power_of_two n ≡ true → (k : ℕ) × (k < 64) × (n ≡ 2 ^ k)
unfolding is_power_of_two
is_power_of_two_sound n h e = count_ones-eq-one 64 n h ((==_iff _ 1).0 e)

count_ones-zero : (bits : ℕ) → count_ones bits 0 ≡ 0
unfolding count_ones
count_ones-zero zero = refl
count_ones-zero (suc bits) = omega (arith, count_ones-zero bits)

count_ones-pow : (bits k : ℕ) → k < bits → count_ones bits (2 ^ k) ≡ 1
unfolding count_ones
count_ones-pow zero k h = elim h [ ]
count_ones-pow (suc bits) zero h = omega (arith, count_ones-zero bits)
count_ones-pow (suc bits) (suc k) h =
    let e : 2 ^ suc k / 2 ≡ 2 ^ k = omega (arith, two-pow-succ k) in
    rw e (omega (arith, two-pow-succ k, count_ones-pow bits k (omega arith)))

-- Every power of two that fits a word passes.
pub is_power_of_two-pow : (k : ℕ) → k < 64 → is_power_of_two (2 ^ k) ≡ true
unfolding is_power_of_two
is_power_of_two-pow k h = (==_iff _ 1).1 (count_ones-pow 64 k h)
