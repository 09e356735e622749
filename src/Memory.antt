-- ===== src/Memory.antt =====
-- The mapped payload as bytes behind raw pointers (packages/shared/src/lib.rs): volatile element
-- accesses, and the two byte-wise copies. An access outside the mapping is a fault, `none`.
pub mod Copy
pub mod Words
pub mod Bytes
pub mod WriteFrame
pub mod ReadFrame
use lalah.Base.{ℕ, ◌+◌, List, [], ◌∷◌, Option, none, some, ltb, ◌==◌, if◌then◌else◌, ◌>>=◌}
use lalah.Base.{zero, suc}

-- `size` bytes from the payload pointer on.
pub record Memory : Type 0 where
  pub size : ℕ
  pub cell : ℕ → ℕ

abbrev pub update : (ℕ → ℕ) → ℕ → ℕ → ℕ → ℕ
update f i b j = if j == i then b else f j

unfoldable pub write_volatile : Memory → ℕ → ℕ → Option Memory
write_volatile m i b = if ltb i m.size then some (record m { cell = update m.cell i b }) else none

unfoldable pub read_volatile : Memory → ℕ → Option ℕ
read_volatile m i = if ltb i m.size then some (m.cell i) else none

unfoldable pub volatile_copy_to : Memory → ℕ → List ℕ → Option Memory
unfolding write_volatile
volatile_copy_to m off [] = some m
volatile_copy_to m off (b ∷ src) =
    write_volatile m off b >>= λ m'. volatile_copy_to m' (off + 1) src

-- What the loop leaves in a destination of `n` bytes.
unfoldable pub volatile_copy_from : Memory → ℕ → ℕ → Option (List ℕ)
unfolding read_volatile
volatile_copy_from m off zero = some []
volatile_copy_from m off (suc n) =
    read_volatile m off >>= λ b. volatile_copy_from m (off + 1) n >>= λ rest. some (b ∷ rest)
