-- ===== src/Video/Race/Moves.antt =====
-- The steps of the producer of frames, and the invariant.
use lalah.Base.{
  ℕ, ◌+◌, ◌-◌, ◌<◌, ◌≡◌, ◌≢◌, refl, sym, ap, ◌∙◌, List, [], ◌∷◌, ◌++◌, some, arith, length, get_or,
  length-append, get_or-append, wrapping_add,
}
use mathlib.Core.List.{append-nil}
use native.Mathlib.Decide.{dec_lt}
use lalah.Base.Rounds.{mod_distinct}
use lalah.Memory.{update, write_volatile}
use lalah.Memory.WriteFrame.{length-frame_of}
use lalah.Audio.Race.Moves.Bytes.{write_volatile_inv}
use lalah.Video.Header.{ShmVideoHeader}
use lalah.Video.Ring.{VideoShm, ShmVideoBuffer, slot_offset}
use lalah.Video.Ring.Geometry.{IsCut}
use lalah.Video.Ring.Slots.{cells_apart}
use lalah.Video.Race.{FrameProducer, idle, writing, PushFrame, skip, enter, store, publish}
use lalah.Video.Race.Invariant.{Safe, WritingFrame, KeptFrame}

-- The slots stay where they are while the payload keeps its size.
IsCut-resized :
    {me : ShmVideoBuffer} {shm shm' : VideoShm}
    → shm'.payload.size ≡ shm.payload.size
    → IsCut me shm
    → IsCut me shm'
IsCut-resized e c = record {
  some_frame = c.some_frame;
  enough = c.enough;
  aligned = c.aligned;
  holds_frame = c.holds_frame;
  fits = omega (arith, c.fits);
  narrow = c.narrow;
}

store_keeps :
    {me : ShmVideoBuffer} {shm shm' : VideoShm} {frames : List (List ℕ)} {frame : List ℕ}
    {seq i : ℕ}
    → i < me.frame_size
    → write_volatile shm.payload (slot_offset me seq + i) (get_or frame i 0) ≡ some shm'.payload
    → shm'.hdr ≡ shm.hdr
    → KeptFrame me shm frames (writing frame seq i)
    → KeptFrame me shm' frames (writing frame seq (i + 1))
store_keeps {me} {shm} {shm'} {frames} {frame} {seq} {i} lt e h k = record {
  cut = IsCut-resized {shm = shm} {shm' = shm'} stored.0 k.cut;
  count = ap (λ (w : ShmVideoHeader). w.frame_seq) h ∙ k.count;
  small = k.small;
  sized = k.sized;
  safe = safe;
  pushing = record {
    loaded = w.loaded;
    room = w.room;
    full = w.full;
    so_far = omega (arith, lt);
    written = written;
  };
}
  where
    w : WritingFrame me shm frames frame seq i
    w = k.pushing

    at : ℕ
    at = slot_offset me (length frames) + i

    stored :
        (shm'.payload.size ≡ shm.payload.size)
        × ((j : ℕ) → shm'.payload.cell j ≡ update shm.payload.cell at (get_or frame i 0) j)
    stored = write_volatile_inv shm.payload shm'.payload at (get_or frame i 0) (
        ap (λ t. write_volatile shm.payload (slot_offset me t + i) (get_or frame i 0))
          (sym w.loaded)
        ∙ e)

    safe : Safe me shm'.payload frames
    safe f j hf hj near =
        let apart : slot_offset me f + j ≢ at =
          cells_apart k.cut f (length frames) j i
            (λ same. mod_distinct me.slot_count f (length frames) hf near (sym same)) hj lt in
        stored.1 (slot_offset me f + j) ∙ ground arith ∙ k.safe f j hf hj near

    written :
        (j : ℕ)
        → j < i + 1
        → shm'.payload.cell (slot_offset me (length frames) + j) ≡ get_or frame j 0
    written j hj = elim (dec_lt j i) [
      | yes old ↦ stored.1 (slot_offset me (length frames) + j) ∙ ground arith ∙ w.written j old
      | no new ↦
          let last : j ≡ i = omega arith in
          stored.1 (slot_offset me (length frames) + j)
          ∙ ground (arith, ap (λ t. get_or frame t 0) last)
    ]

publish_keeps :
    {me : ShmVideoBuffer} {shm : VideoShm} {frames : List (List ℕ)} {frame : List ℕ} {seq i : ℕ}
    → i ≡ me.frame_size
    → KeptFrame me shm frames (writing frame seq i)
    → KeptFrame me
        (record shm { hdr = record shm.hdr { frame_seq = wrapping_add seq 1 } })
        (frames ++ frame ∷ [])
        idle
publish_keeps {me} {shm} {frames} {frame} {seq} {i} e k = record {
  cut = IsCut-resized {shm = shm} refl k.cut;
  count = omega (arith, total, w.loaded, w.room);
  small = omega (arith, total, w.room);
  sized = λ f lt. sized f (omega (arith, total)) (dec_lt f (length frames));
  safe = λ f j hf hj near.
      safe f j (omega (arith, total)) hj (omega (arith, total)) (dec_lt f (length frames));
  pushing = tt;
}
  where
    w : WritingFrame me shm frames frame seq i
    w = k.pushing

    total : length (frames ++ frame ∷ []) ≡ length frames + 1
    total = length-append frames (frame ∷ [])

    old_frame :
        (f : ℕ) → f < length frames → get_or (frames ++ frame ∷ []) f [] ≡ get_or frames f []
    old_frame f lt = get_or-append [] frames (frame ∷ []) f ∙ ground arith

    new_frame : (f : ℕ) → f ≡ length frames → get_or (frames ++ frame ∷ []) f [] ≡ frame
    new_frame f at_end =
        let start : f - length frames ≡ 0 = omega arith in
        get_or-append [] frames (frame ∷ []) f
        ∙ ground (arith, ap (λ t. get_or (frame ∷ []) t []) start)

    sized :
        (f : ℕ)
        → f < length frames + 1
        → Dec (f < length frames)
        → length (get_or (frames ++ frame ∷ []) f []) ≡ me.frame_size
    sized f lt (yes old) = ap length (old_frame f old) ∙ k.sized f old
    sized f lt (no new) = ap length (new_frame f (omega arith)) ∙ w.full

    safe :
        (f j : ℕ)
        → f < length frames + 1
        → j < me.frame_size
        → length frames + 1 < f + me.slot_count
        → Dec (f < length frames)
        → shm.payload.cell (slot_offset me f + j) ≡ get_or (get_or (frames ++ frame ∷ []) f []) j 0
    safe f j hf hj near (yes old) =
        k.safe f j old hj (omega arith) ∙ ap (λ x. get_or x j 0) (sym (old_frame f old))
    safe f j hf hj near (no new) =
        let at_end : f ≡ length frames = omega arith in
        ap (λ t. shm.payload.cell (slot_offset me t + j)) at_end
        ∙ w.written j (omega arith)
        ∙ ap (λ x. get_or x j 0) (sym (new_frame f at_end))

-- Every step of the producer keeps its invariant, with the frames it leaves.
pub PushFrame-KeptFrame :
    {me : ShmVideoBuffer} {shm shm' : VideoShm} {frames new : List (List ℕ)}
    {producer producer' : FrameProducer}
    → PushFrame me shm producer shm' producer' new
    → KeptFrame me shm frames producer
    → KeptFrame me shm' (frames ++ new) producer'
PushFrame-KeptFrame (skip none_set) k = rw append-nil k
PushFrame-KeptFrame {me} {frames} (enter src set room) k = rw append-nil (record {
  cut = k.cut;
  count = k.count;
  small = k.small;
  sized = k.sized;
  safe = k.safe;
  pushing = record {
    loaded = k.count;
    room = omega (arith, k.count);
    full = length-frame_of src me.frame_size;
    so_far = omega arith;
    written = λ j lt. absurd (omega arith);
  };
})
PushFrame-KeptFrame (store lt e h) k = rw append-nil (store_keeps lt e h k)
PushFrame-KeptFrame (publish e) k = publish_keeps e k
