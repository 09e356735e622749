-- ===== src/Memory/Bytes.antt =====
-- Bytes and words: the little-endian round trip, and the words of a frame.
use lalah.Base.{
  ℕ, zero, suc, ◌+◌, ◌-◌, ◌≤◌, ◌<◌, ◌≡◌, refl, sym, ap, ap₂, ◌∙◌, List, [], ◌∷◌, ◌++◌, some, arith,
  ltb, if◌then◌else◌, length, get_or, take, drop, replicate, tabulate, min, lt→ltb, le→ltb,
  length-append, length-take, length-drop, length-replicate, get_or-append, get_or-take,
  get_or-drop, get_or-tabulate, list_ext,
}
use native.Mathlib.Decide.{dec_lt}
use lalah.Memory.{Memory, write_volatile, volatile_copy_to}
use lalah.Memory.Copy.{overlay, volatile_copy_to_lem}
use lalah.Memory.Words.{from_ne_bytes, to_bytes, frame_word}

-- Every element is a byte.
abbrev pub AreBytes : List ℕ → Type 0
AreBytes xs = (i : ℕ) → get_or xs i 0 < 256

pub to_bytes-from_ne_bytes :
    (bs : List ℕ) → AreBytes bs → to_bytes (length bs) (from_ne_bytes bs) ≡ bs
unfolding to_bytes from_ne_bytes
to_bytes-from_ne_bytes [] h = refl
to_bytes-from_ne_bytes (b ∷ bs) h =
    ap₂ ◌∷◌ (omega (arith, h 0))
      (ap (to_bytes (length bs)) (omega (arith, h 0)) ∙ to_bytes-from_ne_bytes bs (λ i. h (suc i)))

-- One piece laid behind another.
pub overlay-append :
    (f : ℕ → ℕ) (off : ℕ) (xs ys : List ℕ) (j : ℕ)
    → overlay (overlay f off xs) (off + length xs) ys j ≡ overlay f off (xs ++ ys) j
overlay-append f off xs ys j = ground (
  arith,
  length-append xs ys,
  get_or-append 0 xs ys (j - off),
  λ (q : off + length xs ≤ j). ap (λ k. get_or ys k 0) (back q),
)
  where
    back : off + length xs ≤ j → j - (off + length xs) ≡ j - off - length xs
    back q = omega arith

-- The bytes of a frame: the source, cut or filled up with zeroes to `frame_size`.
abbrev pub frame_byte : List ℕ → ℕ → ℕ → ℕ
frame_byte src n j = if ltb j n then get_or src j 0 else 0

pub get_or-replicate : (n i : ℕ) → get_or {A = ℕ} (replicate n 0) i 0 ≡ 0
get_or-replicate zero i = refl
get_or-replicate (suc n) zero = refl
get_or-replicate (suc n) (suc i) = get_or-replicate n i

module _ (src : List ℕ) (n start : ℕ) (h : n ≤ length src) where
  -- The part of a word that the source fills.
  filled : ℕ → List ℕ
  filled avail = take avail (drop start src)

  length-filled : start < n → (avail : ℕ) → avail ≤ n - start → length (filled avail) ≡ avail
  unfolding filled
  length-filled lt avail le =
      omega (arith, length-take avail (drop start src), length-drop start src)

  pub length-frame_word : length (frame_word src n start) ≡ 8
  unfolding frame_word filled
  length-frame_word = elim (dec_lt start n) [
    | yes lt ↦
        let a = min (n - start) 8 in
        rw (lt→ltb start n lt) (
          length-append (filled a) (replicate (8 - a) 0)
          ∙ omega (arith, length-filled lt a (omega arith), length-replicate (8 - a) (zero)))
    | no ge ↦ rw (le→ltb start n (omega arith)) refl
  ]

  pub get_or-frame_word :
      (i : ℕ) → i < 8 → get_or (frame_word src n start) i 0 ≡ frame_byte src n (start + i)
  unfolding frame_word filled
  get_or-frame_word i lt = elim (dec_lt start n) [
    | yes below ↦
        let a = min (n - start) 8 in
        rw (lt→ltb start n below) (
          get_or-append 0 (filled a) (replicate (8 - a) 0) i
          ∙ ground (
            arith,
            length-filled below a (omega arith),
            get_or-replicate (8 - a) (i - length (filled a)),
            λ (q : i < a). get_or-take 0 a (drop start src) i q ∙ get_or-drop 0 start src i,
          ))
    | no ge ↦ rw (le→ltb start n (omega arith)) (get_or-replicate 8 i ∙ ground arith)
  ]

  pub frame_word_lem : frame_word src n start ≡ tabulate (frame_byte src n) start 8
  frame_word_lem =
      list_ext 0 (frame_word src n start) (tabulate (frame_byte src n) start 8) length-frame_word
        (λ i lt.
          let q : i < 8 = omega (arith, length-frame_word) in
          get_or-frame_word i q ∙ sym (get_or-tabulate 0 (frame_byte src n) start 8 i q))

pub get_or_beyond : (xs : List ℕ) (i : ℕ) → length xs ≤ i → get_or xs i 0 ≡ 0
get_or_beyond [] i h = refl
get_or_beyond (x ∷ xs) zero h = absurd (omega arith)
get_or_beyond (x ∷ xs) (suc i) h = get_or_beyond xs i (omega arith)

-- A byte write is a copy of one byte.
pub one_byte :
    (m : Memory) (at b : ℕ)
    → at < m.size
    → write_volatile m at b ≡ some (record m { cell = overlay m.cell at (b ∷ []) })
unfolding volatile_copy_to write_volatile
one_byte m at b lt =
    sym (rw (lt→ltb at m.size lt) refl) ∙ volatile_copy_to_lem m at (b ∷ []) (omega arith)
