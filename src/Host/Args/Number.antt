-- ===== src/Host/Args/Number.antt =====
-- Rust's `str::parse` for unsigned integers, as `parse_args` of packages/lalah-host/src/main.rs uses it.
use Prim.Native.Char.{code}
use Prim.Native.String.{String, [], ◌∷◌}
use lalah.Base.{
  ℕ, ◌+◌, ◌-◌, ◌*◌, ◌<◌, ◌≡◌, ◌||◌, Option, none, some, ltb, leb, ◌==◌, if◌then◌else◌, arith,
}

-- The digits behind `n`; a result that is not below `bound` is an overflow.
unfoldable pub scan : (bound : ℕ) → String → (n : ℕ) → Option ℕ
scan bound [] n = some n
scan bound (c ∷ s) n =
    let m = n * 10 + (code c - 48) in
    let rest = scan bound s m in
    if ltb (code c) 48 || ltb 57 (code c) || leb bound m then none else rest

-- At least one digit.
unfoldable pub digits : (bound : ℕ) → String → Option ℕ
unfolding scan
digits bound [] = none
digits bound (c ∷ s) = scan bound (c ∷ s) 0

-- A plus sign may stand before the digits.
unfoldable pub parse : (bound : ℕ) → String → Option ℕ
unfolding digits
parse bound [] = none
parse bound (c ∷ s) = if code c == 43 then digits bound s else digits bound (c ∷ s)

scan_below : (bound : ℕ) (s : String) (n r : ℕ) → n < bound → scan bound s n ≡ some r → r < bound
unfolding scan
scan_below bound [] n r lt e = ground arith
scan_below bound (c ∷ s) n r lt e = ground (arith, scan_below bound s (n * 10 + (code c - 48)) r)

digits_below : (bound : ℕ) (s : String) (r : ℕ) → 0 < bound → digits bound s ≡ some r → r < bound
unfolding digits
digits_below bound [] r pos e = ground arith
digits_below bound (c ∷ s) r pos e = scan_below bound (c ∷ s) 0 r pos e

-- What is parsed is in range.
pub parse_below : (bound : ℕ) (s : String) (r : ℕ) → 0 < bound → parse bound s ≡ some r → r < bound
unfolding parse
parse_below bound [] r pos e = ground arith
parse_below bound (c ∷ s) r pos e =
    ground (arith, digits_below bound s r pos, digits_below bound (c ∷ s) r pos)
