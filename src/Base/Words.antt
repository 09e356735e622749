-- ===== src/Base/Words.antt =====
-- Machine words: the bound of a `u64`, its wrapping operations, and casts to `u32`.
use Prim.Native.Nat.{ℕ, ◌+◌, ◌-◌, ◌%◌, ◌^◌}

abbrev pub u64_mod : ℕ
u64_mod = 2 ^ 64

abbrev pub u32_mod : ℕ
u32_mod = 2 ^ 32

-- `u64::wrapping_add`.
abbrev pub wrapping_add : ℕ → ℕ → ℕ
wrapping_add a b = (a + b) % u64_mod

-- `u64::wrapping_sub`.
abbrev pub wrapping_sub : ℕ → ℕ → ℕ
wrapping_sub a b = (a + u64_mod - b) % u64_mod

-- `as u32`.
abbrev pub as_u32 : ℕ → ℕ
as_u32 n = n % u32_mod
