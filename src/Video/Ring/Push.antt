-- ===== src/Video/Ring/Push.antt =====
-- `push_frame` and the stream of frames.
use lalah.Base.{
  ℕ, ◌+◌, ◌-◌, ◌<◌, ◌≡◌, sym, ap, ◌∙◌, List, [], ◌∷◌, ◌++◌, false, some, arith, ◌==◌, length,
  get_or, length-append, get_or-append, u64_mod, ne→==,
}
use lalah.Base.Rounds.{mod_distinct}
use native.Mathlib.Nat.{mod-eq_of_lt}
use native.Mathlib.Decide.{dec_lt}
use lalah.Memory.{Memory}
use lalah.Memory.Copy.{overlay}
use lalah.Memory.Words.{volatile_write_frame}
use lalah.Memory.Bytes.{AreBytes}
use lalah.Memory.WriteFrame.{frame_of, length-frame_of, volatile_write_frame_lem}
use lalah.Video.Ring.{VideoShm, ShmVideoBuffer, slot_offset, push_frame}
use lalah.Video.Ring.Geometry.{IsCut}
use lalah.Video.Ring.Slots.{slot_aligned, slot_fits, slot_apart}
use lalah.Video.Ring.Stream.{
  slot_bytes, KeptFrames, HoldsFrames, overlay-bytes, frame_of-bytes, slot_written,
}

-- What a push of `src` behind `frames` leaves.
pub record PushedFrame (me : ShmVideoBuffer) (shm : VideoShm) (frames : List (List ℕ))
    (src : List ℕ) (shm' : VideoShm) : Type 0 where
  pub returns : push_frame me shm src ≡ some shm'
  pub holds : HoldsFrames me shm' (frames ++ frame_of src me.frame_size ∷ [])
  pub cut : IsCut me shm'
  pub header : shm'.hdr ≡ record shm.hdr { frame_seq = shm.hdr.frame_seq + 1 }

module _ {me : ShmVideoBuffer} {shm : VideoShm} {frames : List (List ℕ)} (c : IsCut me shm)
    (h : HoldsFrames me shm frames) where
  -- On a handle whose slots are cut out of the region, a push of bytes, as long as fewer than
  -- 2^64 frames are pushed in all, never faults and never waits: the frame, cut or filled up with
  -- zeroes, is appended to the stream, and the header keeps all but `frame_seq`.
  pub push_frame-PushedFrame :
      (src : List ℕ)
      → AreBytes src
      → length frames + 1 < u64_mod
      → (shm' : VideoShm) × PushedFrame me shm frames src shm'
  unfolding push_frame
  push_frame-PushedFrame src b room = (
    shm',
    record {
      returns =
          rw (no_frame, no_slots, h.count, written)
            (ap (λ k. some (record { hdr = record shm.hdr { frame_seq = k }; payload = m' }))
              (mod-eq_of_lt room));
      holds = record {
        count = sym (length-append frames (frame ∷ []));
        small = omega (arith, length-append frames (frame ∷ []));
        kept = kept;
        bytes = λ j.
            overlay-bytes shm.payload.cell off frame j (h.bytes j)
              (frame_of-bytes src me.frame_size b);
      };
      cut = record {
        some_frame = c.some_frame;
        enough = c.enough;
        aligned = c.aligned;
        holds_frame = c.holds_frame;
        fits = c.fits;
        narrow = c.narrow;
      };
      header = rw h.count;
    },
  )
    where
      frame : List ℕ
      frame = frame_of src me.frame_size

      off : ℕ
      off = slot_offset me (length frames)

      m' : Memory
      m' = record shm.payload { cell = overlay shm.payload.cell off frame }

      shm' : VideoShm
      shm' = record { hdr = record shm.hdr { frame_seq = length frames + 1 }; payload = m' }

      no_frame : (me.frame_size == 0) ≡ false
      no_frame = ne→== me.frame_size 0 (omega (arith, c.some_frame))

      no_slots : (me.slot_count == 0) ≡ false
      no_slots = ne→== me.slot_count 0 (omega (arith, c.enough))

      written : volatile_write_frame shm.payload off src me.frame_size ≡ some m'
      written =
          volatile_write_frame_lem shm.payload off src me.frame_size b
            (slot_aligned c (length frames)) (slot_fits c (length frames))

      kept : KeptFrames me m' (frames ++ frame ∷ [])
      kept f lt near = elim (dec_lt f (length frames)) [
        | yes old ↦
            slot_apart c f (length frames) frame
              (λ e.
                mod_distinct me.slot_count f (length frames) old
                  (omega (arith, length-append frames (frame ∷ []))) (sym e))
              (omega (arith, length-frame_of src me.frame_size))
            ∙ h.kept f old (omega (arith, length-append frames (frame ∷ [])))
            ∙ sym (get_or-append [] frames (frame ∷ []) f ∙ ground arith)
        | no new ↦
            let e : f ≡ length frames = omega (arith, length-append frames (frame ∷ [])) in
            let at_end : f - length frames ≡ 0 = omega arith in
            let held : slot_bytes me m' f ≡ frame =
              ap (slot_bytes me m') e
              ∙ slot_written me shm.payload (length frames) frame
                  (length-frame_of src me.frame_size) in
            held
            ∙ sym (
                get_or-append [] frames (frame ∷ []) f
                ∙ ground (arith, ap (λ k. get_or (frame ∷ []) k []) at_end))
      ]
