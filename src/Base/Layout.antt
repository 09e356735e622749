-- ===== src/Base/Layout.antt =====
-- The layout of a `repr(C)` struct: each field at the next multiple of its alignment, and the size
-- rounded up to the alignment of the whole.
use mathlib.Core.List.{List, [], ◌∷◌}
use Prim.Native.Nat.{ℕ, ◌+◌, ◌-◌, ◌*◌, ◌/◌, max}

-- `size_of` and `align_of` of a field.
pub record Field : Type 0 where
  pub size : ℕ
  pub align : ℕ

unfoldable pub round_up : (n align : ℕ) → ℕ
round_up n align = (n + align - 1) / align * align

-- The offsets of the fields, with `from` the first free byte.
unfoldable pub offsets : (from : ℕ) → List Field → List ℕ
unfolding round_up
offsets from [] = []
offsets from (f ∷ fs) = round_up from f.align ∷ offsets (round_up from f.align + f.size) fs

-- The end of the last field.
unfoldable pub end_of : (from : ℕ) → List Field → ℕ
unfolding round_up
end_of from [] = from
end_of from (f ∷ fs) = end_of (round_up from f.align + f.size) fs

unfoldable pub align_of : List Field → ℕ
align_of [] = 1
align_of (f ∷ fs) = max f.align (align_of fs)

-- With `align(least)`.
unfoldable pub size_of : (least : ℕ) → List Field → ℕ
unfolding end_of align_of round_up
size_of least fs = round_up (end_of 0 fs) (max least (align_of fs))

-- An atomic word and a padding array.
abbrev pub atomic_u64 : Field
atomic_u64 = record { size = 8; align = 8 }

abbrev pub atomic_u32 : Field
atomic_u32 = record { size = 4; align = 4 }

abbrev pub padding : ℕ → Field
padding n = record { size = n; align = 1 }
