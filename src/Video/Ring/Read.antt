-- ===== src/Video/Ring/Read.antt =====
-- `read_frame` while no frame is pushed.
use lalah.Base.{
  ℕ, zero, suc, ◌+◌, ◌-◌, ◌<◌, ◌≡◌, refl, sym, ap, ap₂, ◌∙◌, List, [], ◌∷◌, ◌++◌, true, false,
  Option, none, some, arith, leb, ◌==◌, if◌then◌else◌, min, length, get_or, take, drop, tabulate,
  wrapping_sub, ne→==, eq→==, le→leb,
}
use native.Mathlib.Decide.{ℕ_discrete}
use lalah.Memory.ReadFrame.{volatile_copy_from_words_lem}
use lalah.Video.Ring.{VideoShm, ShmVideoBuffer, slot_offset, read_frame, tear_safe}
use lalah.Video.Ring.Geometry.{IsCut}
use lalah.Video.Ring.Slots.{slot_aligned, slot_fits}
use lalah.Video.Ring.Stream.{HoldsFrames}

take-nil : (k : ℕ) → take {A = ℕ} k [] ≡ []
take-nil zero = refl
take-nil (suc k) = refl

tabulate-min : (f : ℕ → ℕ) (i n k : ℕ) → tabulate f i (min n k) ≡ take k (tabulate f i n)
tabulate-min f i zero k =
    let e : min 0 k ≡ 0 = omega arith in ap (tabulate f i) e ∙ sym (take-nil k)
tabulate-min f i (suc n) zero = let e : min (suc n) 0 ≡ 0 = omega arith in ap (tabulate f i) e
tabulate-min f i (suc n) (suc k) =
    let e : min (suc n) (suc k) ≡ suc (min n k) = omega arith in
    rw e (ap (λ t. f i ∷ t) (tabulate-min f (i + 1) n k))

drop-min : (n : ℕ) (xs : List ℕ) → drop (min n (length xs)) xs ≡ drop n xs
drop-min zero xs = let e : min 0 (length xs) ≡ 0 = omega arith in ap (λ k. drop k xs) e
drop-min (suc n) [] = let e : min (suc n) 0 ≡ 0 = omega arith in ap (λ k. drop k []) e
drop-min (suc n) (x ∷ xs) =
    let e : min (suc n) (suc (length xs)) ≡ suc (min n (length xs)) = omega arith in
    rw e (drop-min n xs)

-- On a handle with slots a read never faults, whatever was pushed.
pub read_frame_returns :
    (me : ShmVideoBuffer) (shm : VideoShm) (out : List ℕ)
    → IsCut me shm
    → ((j : ℕ) → shm.payload.cell j < 256)
    → (r : List ℕ × Option ℕ) × (read_frame me shm out ≡ some r)
unfolding read_frame tear_safe
read_frame_returns me shm out c b = elim (ℕ_discrete shm.hdr.frame_seq 0) [
  | yes e ↦ ((out, none), rw (no_frame, no_slots, eq→== shm.hdr.frame_seq 0 e) refl)
  | no ne ↦ (
    (
      tabulate shm.payload.cell off len ++ drop len out,
      if tear_safe me shm.hdr.frame_seq shm.hdr.frame_seq
          then some (shm.hdr.frame_seq - 1)
          else none,
    ),
    rw
        (
          no_frame,
          no_slots,
          ne→== shm.hdr.frame_seq 0 ne,
          volatile_copy_from_words_lem shm.payload off b (slot_aligned c (shm.hdr.frame_seq - 1))
              len (omega (arith, slot_fits c (shm.hdr.frame_seq - 1))),
        )
        refl,
  )
]
  where
    len : ℕ
    len = min me.frame_size (length out)

    off : ℕ
    off = slot_offset me (shm.hdr.frame_seq - 1)

    no_frame : (me.frame_size == 0) ≡ false
    no_frame = ne→== me.frame_size 0 (omega (arith, c.some_frame))

    no_slots : (me.slot_count == 0) ≡ false
    no_slots = ne→== me.slot_count 0 (omega (arith, c.enough))

module _ {me : ShmVideoBuffer} {shm : VideoShm} {frames : List (List ℕ)} (c : IsCut me shm)
    (h : HoldsFrames me shm frames) where
  -- On a handle whose slots are cut out of the region, while no frame is pushed, a read never
  -- faults. With a frame in the stream the newest, as long as the buffer has room for, is at the
  -- start of the buffer, the rest of the buffer is untouched, and the read is accepted with the
  -- frame's number. Before the first frame the buffer is untouched and nothing is accepted.
  pub read_frame_newest :
      (out : List ℕ)
      → read_frame me shm out ≡ (
          if length frames == 0
          then some (out, none)
          else some (
            take (length out) (get_or frames (length frames - 1) []) ++ drop me.frame_size out,
            some (length frames - 1),
          ))
  unfolding read_frame
  read_frame_newest out = elim (ℕ_discrete (length frames) 0) [
    | yes e ↦ rw (no_frame, no_slots, h.count, eq→== (length frames) 0 e) refl
    | no ne ↦
        rw
          (
            no_frame,
            no_slots,
            h.count,
            ne→== (length frames) 0 ne,
            volatile_copy_from_words_lem shm.payload (slot_offset me newest) h.bytes
                (slot_aligned c newest) len (omega (arith, slot_fits c newest)),
            same_count,
          )
          (ap₂ (λ (a b : List ℕ). some (a ++ b, some newest)) (delivered (omega arith))
            (drop-min me.frame_size out))
  ]
    where
      newest : ℕ
      newest = length frames - 1

      len : ℕ
      len = min me.frame_size (length out)

      no_frame : (me.frame_size == 0) ≡ false
      no_frame = ne→== me.frame_size 0 (omega (arith, c.some_frame))

      no_slots : (me.slot_count == 0) ≡ false
      no_slots = ne→== me.slot_count 0 (omega (arith, c.enough))

      same_count : leb (wrapping_sub (length frames) (length frames)) (me.slot_count - 2) ≡ true
      same_count =
          le→leb (wrapping_sub (length frames) (length frames)) (me.slot_count - 2)
            (omega (arith, h.small))

      delivered :
          0 < length frames
          → tabulate shm.payload.cell (slot_offset me newest) len
            ≡ take (length out) (get_or frames newest [])
      delivered pos =
          tabulate-min shm.payload.cell (slot_offset me newest) me.frame_size (length out)
          ∙ ap (take (length out)) (h.kept newest (omega arith) (omega (arith, c.enough)))
