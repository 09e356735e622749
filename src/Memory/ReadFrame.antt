-- ===== src/Memory/ReadFrame.antt =====
-- The effect of `volatile_copy_from_words` at an aligned slot.
use lalah.Base.{
  ℕ, zero, suc, ◌+◌, ◌-◌, ◌*◌, ◌/◌, ◌%◌, ◌≤◌, ◌<◌, ◌≡◌, refl, ap, ap₂, ◌∙◌, ◌++◌, some, arith,
  tabulate, eq→==, get_or-tabulate, tabulate-append,
}
use native.Mathlib.Decide.{dec_lt}
use lalah.Memory.{Memory}
use lalah.Memory.Copy.{volatile_copy_from_lem}
use lalah.Memory.Words.{from_ne_bytes, to_bytes, read_word, read_words, volatile_copy_from_words}
use lalah.Memory.Bytes.{to_bytes-from_ne_bytes, get_or_beyond}

module _ (m : Memory) (off : ℕ) (bytes : (j : ℕ) → m.cell j < 256) (aligned : off % 8 ≡ 0) where
  word_of_cells :
      (at : ℕ) → to_bytes 8 (from_ne_bytes (tabulate m.cell at 8)) ≡ tabulate m.cell at 8
  word_of_cells at = to_bytes-from_ne_bytes (tabulate m.cell at 8) (λ i. elim (dec_lt i 8) [
    | yes lt ↦ rw (get_or-tabulate 0 m.cell at 8 i lt) (bytes (at + i))
    | no ge ↦ rw (get_or_beyond (tabulate m.cell at 8) i (omega arith)) (omega arith)
  ])

  read_word_lem :
      (i : ℕ)
      → off + i * 8 + 8 ≤ m.size
      → read_word m (off + i * 8) ≡ some (from_ne_bytes (tabulate m.cell (off + i * 8) 8))
  unfolding read_word
  read_word_lem i fits =
      rw (eq→== ((off + i * 8) % 8) 0 (omega arith), volatile_copy_from_lem m (off + i * 8) 8 fits)
        refl

  read_words_lem :
      (left i : ℕ)
      → off + i * 8 + left * 8 ≤ m.size
      → read_words m off i left ≡ some (tabulate m.cell (off + i * 8) (left * 8))
  unfolding read_words
  read_words_lem zero i fits = refl
  read_words_lem (suc left) i fits =
      rw (read_word_lem i (omega arith), read_words_lem left (i + 1) (omega arith))
        (ap some (
          ap₂ ◌++◌ (word_of_cells (off + i * 8))
            (ap (λ k. tabulate m.cell k (left * 8)) (omega arith))
          ∙ tabulate-append m.cell (off + i * 8) 8 (left * 8)
          ∙ ap (tabulate m.cell (off + i * 8)) (omega arith)))

  -- A read of `len` bytes at an aligned slot inside the mapping: no fault, and the bytes there.
  pub volatile_copy_from_words_lem :
      (len : ℕ)
      → off + len ≤ m.size
      → volatile_copy_from_words m off len ≡ some (tabulate m.cell off len)
  unfolding volatile_copy_from_words
  volatile_copy_from_words_lem len fits =
      rw
        (
          read_words_lem (len / 8) 0 (omega arith),
          volatile_copy_from_lem m (off + len / 8 * 8) (len - len / 8 * 8) (omega arith),
        )
        (ap some (
          ap
            (λ k.
              tabulate m.cell k (len / 8 * 8)
              ++ tabulate m.cell (off + len / 8 * 8) (len - len / 8 * 8))
            (omega arith)
          ∙ tabulate-append m.cell off (len / 8 * 8) (len - len / 8 * 8)
          ∙ ap (tabulate m.cell off) (omega arith)))
