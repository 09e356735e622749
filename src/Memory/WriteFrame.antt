-- ===== src/Memory/WriteFrame.antt =====
-- The effect of `volatile_write_frame` at an aligned slot.
use lalah.Base.{
  ℕ, zero, suc, ◌+◌, ◌-◌, ◌*◌, ◌/◌, ◌%◌, ◌≤◌, ◌<◌, ◌≡◌, sym, ap, ap₂, ◌∙◌, fun_ext, List, ◌++◌,
  Option, some, arith, ◌>>=◌, length, get_or, take, replicate, tabulate, min, eq→==, length-append,
  length-take, length-replicate, length-tabulate, get_or-append, get_or-take, get_or-tabulate,
  list_ext, tabulate-append,
}
use native.Mathlib.Decide.{dec_lt}
use lalah.Memory.{Memory, write_volatile}
use lalah.Memory.Copy.{overlay, overlay-nil, volatile_copy_to_lem}
use lalah.Memory.Words.{
  from_ne_bytes, to_bytes, write_word, frame_word, write_words, write_rest, volatile_write_frame,
}
use lalah.Memory.Bytes.{
  AreBytes, frame_byte, to_bytes-from_ne_bytes, overlay-append, get_or-replicate, length-frame_word,
  get_or-frame_word, frame_word_lem, get_or_beyond, one_byte,
}

-- The memory after the first `k` bytes of a frame have been written at `off`.
abbrev partial : Memory → ℕ → (ℕ → ℕ) → ℕ → Memory
partial m off f k = record m { cell = overlay m.cell off (tabulate f 0 k) }

partial-add :
    (m : Memory) (off : ℕ) (f : ℕ → ℕ) (k l : ℕ)
    → record m { cell = overlay (partial m off f k).cell (off + k) (tabulate f k l) }
      ≡ partial m off f (k + l)
partial-add m off f k l =
    ap (λ c. record m { cell = c })
      (fun_ext (λ j.
        ap₂ (λ a b. overlay (partial m off f k).cell (off + a) (tabulate f b l) j)
          (sym (length-tabulate f 0 k)) (omega arith)
        ∙ overlay-append m.cell off (tabulate f 0 k) (tabulate f (0 + k) l) j
        ∙ ap (λ (xs : List ℕ). overlay m.cell off xs j) (tabulate-append f 0 k l)))

module _ (m : Memory) (off : ℕ) (src : List ℕ) (n : ℕ) (h : n ≤ length src) (bytes : AreBytes src)
    (aligned : off % 8 ≡ 0) where
  abbrev f : ℕ → ℕ
  f = frame_byte src n

  word_bytes :
      (start : ℕ) → to_bytes 8 (from_ne_bytes (frame_word src n start)) ≡ tabulate f start 8
  word_bytes start =
      ap (λ k. to_bytes k (from_ne_bytes (frame_word src n start)))
        (sym (length-frame_word src n start h))
      ∙ to_bytes-from_ne_bytes (frame_word src n start) are
      ∙ frame_word_lem src n start h
    where
      are : AreBytes (frame_word src n start)
      are i = elim (dec_lt i 8) [
        | yes lt ↦ rw (get_or-frame_word src n start h i lt) (ground (arith, bytes (start + i)))
        | no ge ↦
            rw
              (get_or_beyond (frame_word src n start) i
                (omega (arith, length-frame_word src n start h)))
              (omega arith)
      ]

  write_word_lem :
      (i : ℕ)
      → off + (i + 1) * 8 ≤ m.size
      → write_word
          (partial m off f (i * 8))
          (off + i * 8)
          (from_ne_bytes (frame_word src n (i * 8)))
        ≡ some (partial m off f ((i + 1) * 8))
  unfolding write_word
  write_word_lem i fits =
      rw (eq→== ((off + i * 8) % 8) 0 (omega arith), word_bytes (i * 8))
        (volatile_copy_to_lem (partial m off f (i * 8)) (off + i * 8) (tabulate f (i * 8) 8)
            (omega arith)
          ∙ ap some (partial-add m off f (i * 8) 8)
          ∙ ap (λ k. some (partial m off f k)) (omega arith))

  write_words_lem :
      (left i : ℕ)
      → off + (i + left) * 8 ≤ m.size
      → write_words (partial m off f (i * 8)) off src n i left
        ≡ some (partial m off f ((i + left) * 8))
  unfolding write_words
  write_words_lem zero i fits = ap (λ k. some (partial m off f (k * 8))) (omega arith)
  write_words_lem (suc left) i fits = rw (write_word_lem i (omega arith)) (
      write_words_lem left (i + 1) (omega arith)
      ∙ ap (λ k. some (partial m off f (k * 8))) (omega arith))

  write_byte_lem :
      (j : ℕ)
      → off + j < m.size
      → write_volatile (partial m off f j) (off + j) (f j) ≡ some (partial m off f (j + 1))
  write_byte_lem j fits =
      one_byte (partial m off f j) (off + j) (f j) fits ∙ ap some (partial-add m off f j 1)

  write_rest_lem :
      (left j : ℕ)
      → off + (j + left) ≤ m.size
      → write_rest (partial m off f j) off src n j left ≡ some (partial m off f (j + left))
  unfolding write_rest
  write_rest_lem zero j fits = ap (λ k. some (partial m off f k)) (omega arith)
  write_rest_lem (suc left) j fits =
      rw (write_byte_lem j (omega arith)) (
        write_rest_lem left (j + 1) (omega arith)
        ∙ ap (λ k. some (partial m off f k)) (omega arith))

-- A frame as it stands in its slot: the source, cut or filled up with zeroes to `frame_size`.
abbrev pub frame_of : List ℕ → ℕ → List ℕ
frame_of src frame_size = take frame_size src ++ replicate (frame_size - length src) 0

pub length-frame_of :
    (src : List ℕ) (frame_size : ℕ) → length (frame_of src frame_size) ≡ frame_size
length-frame_of src frame_size = omega (
  arith,
  length-append (take frame_size src) (replicate (frame_size - length src) zero),
  length-take frame_size src,
  length-replicate (frame_size - length src) zero,
)

frame_of-tabulate :
    (src : List ℕ) (frame_size : ℕ)
    → tabulate (frame_byte src (min (length src) frame_size)) 0 frame_size ≡ frame_of src frame_size
frame_of-tabulate src frame_size =
    list_ext 0 (tabulate g 0 frame_size) (frame_of src frame_size)
      (length-tabulate g 0 frame_size ∙ sym (length-frame_of src frame_size))
      (λ i lt. element i (omega (arith, length-tabulate g 0 frame_size)))
  where
    g : ℕ → ℕ
    g = frame_byte src (min (length src) frame_size)

    element :
        (i : ℕ)
        → i < frame_size
        → get_or (tabulate g 0 frame_size) i 0 ≡ get_or (frame_of src frame_size) i 0
    element i lt =
        let e : 0 + i ≡ i = omega arith in
        get_or-tabulate 0 g 0 frame_size i lt
        ∙ ap g e
        ∙ sym (
            get_or-append 0 (take frame_size src) (replicate (frame_size - length src) 0) i
            ∙ ground (
              arith,
              length-take frame_size src,
              get_or-take 0 frame_size src i lt,
              get_or-replicate (frame_size - length src) (i - length (take frame_size src)),
            ))

-- A frame written at an aligned slot inside the mapping: no fault, and the slot holds the frame.
pub volatile_write_frame_lem :
    (m : Memory) (off : ℕ) (src : List ℕ) (frame_size : ℕ)
    → AreBytes src
    → off % 8 ≡ 0
    → off + frame_size ≤ m.size
    → volatile_write_frame m off src frame_size
      ≡ some (record m { cell = overlay m.cell off (frame_of src frame_size) })
unfolding volatile_write_frame
volatile_write_frame_lem m off src frame_size bytes aligned fits =
    ap (λ k. write_words k off src n 0 words >>= rest) start
    ∙ ap (λ r. r >>= rest)
        (write_words_lem m off src n (omega arith) bytes aligned words 0 (omega arith))
    ∙ ap (λ k. rest (partial m off g (k * 8))) (omega arith)
    ∙ write_rest_lem m off src n (omega arith) bytes aligned (frame_size - words * 8) (words * 8)
        (omega arith)
    ∙ ap (λ k. some (partial m off g k)) (omega arith)
    ∙ ap (λ (xs : List ℕ). some (record m { cell = overlay m.cell off xs }))
        (frame_of-tabulate src frame_size)
  where
    n : ℕ
    n = min (length src) frame_size

    words : ℕ
    words = frame_size / 8

    g : ℕ → ℕ
    g = frame_byte src n

    rest : Memory → Option Memory
    rest m' = write_rest m' off src n (words * 8) (frame_size - words * 8)

    start : m ≡ partial m off g (0 * 8)
    start = ap (λ c. record m { cell = c }) (fun_ext (overlay-nil m.cell off))
