-- ===== src/Video/Ring/Slots.antt =====
-- The frame slots: where each lies in the payload.
use lalah.Base.{
  ℕ, ◌+◌, ◌*◌, ◌/◌, ◌%◌, ◌≤◌, ◌<◌, ◌≡◌, ◌≢◌, ◌⊎◌, inl, inr, sym, ap, ◌∙◌, List, arith, length,
  tabulate, tabulate_congr,
}
use native.Mathlib.Nat.{mul-le-mul_right, mod-lt, mul-mod_left, mul_assoc}
use native.Mathlib.Decide.{dec_lt}
use lalah.Memory.Copy.{overlay}
use lalah.Video.Ring.{VideoShm, ShmVideoBuffer, slot_offset}
use lalah.Video.Ring.Geometry.{IsCut}

multiple_at_8 : (k s : ℕ) → s % 64 ≡ 0 → (k * s) % 8 ≡ 0
multiple_at_8 k s h =
    let e : s ≡ s / 8 * 8 = omega arith in
    ap (λ t. (k * t) % 8) e
    ∙ ap (λ t. t % 8) (sym (mul_assoc k (s / 8) 8))
    ∙ mul-mod_left (k * (s / 8)) 8

-- The next slot begins at or before any later one.
next_slot : (a b s : ℕ) → a < b → a * s + s ≤ b * s
next_slot a b s lt = omega (arith, mul-le-mul_right {m = a + 1} {n = b} s (omega arith))

-- An index outside the part written is left alone.
overlay_outside :
    (f : ℕ → ℕ) (off : ℕ) (src : List ℕ) (i : ℕ)
    → (i < off) ⊎ (off + length src ≤ i)
    → overlay f off src i ≡ f i
overlay_outside f off src i h = ground arith

module _ {me : ShmVideoBuffer} {shm : VideoShm} (c : IsCut me shm) where
  slot-lt : (f : ℕ) → f % me.slot_count < me.slot_count
  slot-lt f = mod-lt f (omega (arith, c.enough))

  pub slot_aligned : (f : ℕ) → slot_offset me f % 8 ≡ 0
  slot_aligned f = multiple_at_8 (f % me.slot_count) me.slot_stride c.aligned

  -- The slot of any frame ends inside the payload.
  pub slot_fits : (f : ℕ) → slot_offset me f + me.frame_size ≤ shm.payload.size
  slot_fits f = omega (
    arith,
    c.fits,
    c.holds_frame,
    next_slot (f % me.slot_count) me.slot_count me.slot_stride (slot-lt f),
  )

  -- Writing into one slot leaves a frame in another alone.
  pub slot_apart :
      (f g : ℕ) (src : List ℕ)
      → f % me.slot_count ≢ g % me.slot_count
      → length src ≤ me.frame_size
      → tabulate (overlay shm.payload.cell (slot_offset me g) src) (slot_offset me f) me.frame_size
        ≡ tabulate shm.payload.cell (slot_offset me f) me.frame_size
  slot_apart f g src ne le =
      tabulate_congr (overlay shm.payload.cell (slot_offset me g) src) shm.payload.cell
        (slot_offset me f) (slot_offset me f) me.frame_size
        (λ j lt.
          overlay_outside shm.payload.cell (slot_offset me g) src (slot_offset me f + j)
            (side j lt))
    where
      side :
          (j : ℕ)
          → j < me.frame_size
          → (slot_offset me f + j < slot_offset me g)
            ⊎ (slot_offset me g + length src ≤ slot_offset me f + j)
      side j lt = elim (dec_lt (f % me.slot_count) (g % me.slot_count)) [
        | yes before ↦ inl (
            omega (
              arith,
              c.holds_frame,
              next_slot (f % me.slot_count) (g % me.slot_count) me.slot_stride before,
            ))
        | no after ↦ inr (
            omega (
              arith,
              c.holds_frame,
              next_slot (g % me.slot_count) (f % me.slot_count) me.slot_stride (omega arith),
            ))
      ]

  -- No byte of one slot is a byte of another.
  pub cells_apart :
      (f g i j : ℕ)
      → f % me.slot_count ≢ g % me.slot_count
      → i < me.frame_size
      → j < me.frame_size
      → slot_offset me f + i ≢ slot_offset me g + j
  cells_apart f g i j ne hi hj e = elim (dec_lt (f % me.slot_count) (g % me.slot_count)) [
    | yes before ↦
        let gap = next_slot (f % me.slot_count) (g % me.slot_count) me.slot_stride before in
        omega (arith, c.holds_frame, gap)
    | no after ↦
        let gap = next_slot (g % me.slot_count) (f % me.slot_count) me.slot_stride (omega arith) in
        omega (arith, c.holds_frame, gap)
  ]
