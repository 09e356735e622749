-- ===== src/Memory/Words.antt =====
-- The word-wise volatile copies of video frames (packages/shared/src/lib.rs): eight bytes at a time,
-- then the rest byte by byte. A word access that is not 8-byte aligned is a fault, `none`.
use lalah.Base.{
  ℕ, zero, suc, ◌+◌, ◌-◌, ◌*◌, ◌/◌, ◌%◌, List, [], ◌∷◌, ◌++◌, Option, none, some, ltb, ◌==◌,
  if◌then◌else◌, ◌>>=◌, length, get_or, take, drop, replicate, min,
}
use lalah.Memory.{Memory, write_volatile, volatile_copy_to, volatile_copy_from}

-- `u64::from_ne_bytes` and `to_ne_bytes` on x86_64: little-endian.
unfoldable pub from_ne_bytes : List ℕ → ℕ
from_ne_bytes [] = 0
from_ne_bytes (b ∷ bs) = b + 256 * from_ne_bytes bs

unfoldable pub to_bytes : ℕ → ℕ → List ℕ
to_bytes zero w = []
to_bytes (suc n) w = w % 256 ∷ to_bytes n (w / 256)

abbrev pub to_ne_bytes : ℕ → List ℕ
to_ne_bytes w = to_bytes 8 w

-- `write_volatile` and `read_volatile` at a `*mut u64`.
unfoldable pub write_word : Memory → ℕ → ℕ → Option Memory
write_word m at w = if at % 8 == 0 then volatile_copy_to m at (to_ne_bytes w) else none

unfoldable pub read_word : Memory → ℕ → Option ℕ
read_word m at =
    if at % 8 == 0 then (volatile_copy_from m at 8 >>= λ bs. some (from_ne_bytes bs)) else none

-- The eight bytes of the frame from `start` on: what the source has, then zeroes.
unfoldable pub frame_word : List ℕ → ℕ → ℕ → List ℕ
frame_word src n start =
    if ltb start n
    then (let avail = min (n - start) 8 in take avail (drop start src) ++ replicate (8 - avail) 0)
    else replicate 8 0

-- The loop over `i`, for the `left` words still to write.
unfoldable pub write_words : Memory → (off : ℕ) → List ℕ → (n i left : ℕ) → Option Memory
unfolding write_word frame_word
write_words m off src n i zero = some m
write_words m off src n i (suc left) =
    write_word m (off + i * 8) (from_ne_bytes (frame_word src n (i * 8))) >>= λ m'.
    write_words m' off src n (i + 1) left

-- The loop over `j`, for the `left` bytes still to write.
unfoldable pub write_rest : Memory → (off : ℕ) → List ℕ → (n j left : ℕ) → Option Memory
unfolding write_volatile
write_rest m off src n j zero = some m
write_rest m off src n j (suc left) =
    write_volatile m (off + j) (if ltb j n then get_or src j 0 else 0) >>= λ m'.
    write_rest m' off src n (j + 1) left

unfoldable pub volatile_write_frame : Memory → (off : ℕ) → List ℕ → (frame_size : ℕ) → Option Memory
unfolding write_words write_rest
volatile_write_frame m off src frame_size = write_words m off src n 0 words >>= λ m'.
    write_rest m' off src n (words * 8) (frame_size - words * 8)
  where
    n : ℕ
    n = min (length src) frame_size

    words : ℕ
    words = frame_size / 8

-- The words that a copy out delivers, from word `i` on.
unfoldable pub read_words : Memory → (off i left : ℕ) → Option (List ℕ)
unfolding read_word
read_words m off i zero = some []
read_words m off i (suc left) = read_word m (off + i * 8) >>= λ w.
    read_words m off (i + 1) left >>= λ rest. some (to_ne_bytes w ++ rest)

-- What the copy leaves in a destination of `len` bytes.
unfoldable pub volatile_copy_from_words : Memory → (off len : ℕ) → Option (List ℕ)
unfolding read_words
volatile_copy_from_words m off len = read_words m off 0 words >>= λ a.
    volatile_copy_from m (off + words * 8) (len - words * 8) >>= λ b. some (a ++ b)
  where
    words : ℕ
    words = len / 8
