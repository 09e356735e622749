-- ===== src/Base/Texts.antt =====
-- Texts as their bytes, which is what `to_le_bytes`, `trim_end` and `format!` work on here: all of them are
-- ASCII.
use Prim.Native.Nat.{ℕ, zero, suc, ◌+◌, ◌/◌, ◌%◌}
use Prim.Native.Char.{code}
use Prim.Native.String.{String}
use mathlib.Core.Bool.{Bool, true, false, ◌&&◌, ◌||◌}
use mathlib.Core.List.{List, [], ◌∷◌, ◌++◌}
use lalah.Base.Tests.{◌==◌, leb, ltb, if◌then◌else◌}

abbrev pub codes : String → List ℕ
codes String.[] = []
codes (String.◌∷◌ c s) = code c ∷ codes s

abbrev pub byte_at : (w k : ℕ) → ℕ
byte_at w k = w / k % 256

-- The bytes of a `u32`, the lowest first.
abbrev pub to_le_bytes : ℕ → List ℕ
to_le_bytes w = byte_at w 1 ∷ byte_at w 0x100 ∷ byte_at w 0x1_0000 ∷ byte_at w 0x100_0000 ∷ []

-- `is_ascii_graphic`, or a space.
abbrev pub is_printable : ℕ → Bool
is_printable c = (leb 33 c && leb c 126) || c == 32

abbrev pub all_printable : List ℕ → Bool
all_printable [] = true
all_printable (c ∷ cs) = is_printable c && all_printable cs

-- White space, of the ASCII characters.
abbrev pub is_white : ℕ → Bool
is_white c = c == 32 || (leb 9 c && leb c 13)

-- A character before the trimmed rest.
abbrev pub put_before : ℕ → List ℕ → List ℕ
put_before c [] = if is_white c then [] else c ∷ []
put_before c (d ∷ rest) = c ∷ d ∷ rest

abbrev pub trim_end : List ℕ → List ℕ
trim_end [] = []
trim_end (c ∷ cs) = put_before c (trim_end cs)

abbrev pub hex_digit : ℕ → ℕ
hex_digit d = if ltb d 10 then 48 + d else 55 + d

-- `{:08X}`: the digits of a `u32`, the highest first.
abbrev pub hex : (digits w : ℕ) → List ℕ
hex zero w = []
hex (suc n) w = hex n (w / 16) ++ hex_digit (w % 16) ∷ []

abbrev pub eq_bytes : List ℕ → List ℕ → Bool
eq_bytes [] [] = true
eq_bytes [] (d ∷ ds) = false
eq_bytes (c ∷ cs) [] = false
eq_bytes (c ∷ cs) (d ∷ ds) = c == d && eq_bytes cs ds
