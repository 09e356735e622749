-- ===== src/Video/Race/Safety.antt =====
-- The reachable states of the race: what a read of frames delivers, and where a push stores.
use lalah.Base.{
  ℕ, ◌+◌, ◌-◌, ◌<◌, ◌≤◌, ◌≡◌, subst, refl, sym, ap, ◌∙◌, true, List, [], ◌∷◌, ◌++◌, some, arith,
  length, get_or, take, list_ext, length-append, length-take, get_or-append, get_or-take,
  get_or-tabulate, lt→ltb, u64_mod,
}
use native.Mathlib.Decide.{dec_lt}
use lalah.Memory.{Memory, write_volatile, update}
use lalah.Audio.Race.Moves.Bytes.{read_volatile_inv}
use lalah.Video.Ring.{VideoShm, ShmVideoBuffer, slot_offset, tear_safe}
use lalah.Video.Ring.Geometry.{IsCut}
use lalah.Video.Ring.Slots.{slot_fits}
use lalah.Video.Ring.Stream.{HoldsFrames}
use lalah.Video.Race.{
  FrameProducer, idle, writing, FrameConsumer, resting, copying, delivered, ReadFrame, nothing_yet,
  load_count, load_byte, accept, refuse, return, FrameSystem, FrameStep, produce, consume,
  FrameReach, here, later,
}
use lalah.Video.Race.Invariant.{
  CopiedFrame, IsFrame, WritingFrame, FrameProducerInv, FrameConsumerInv, KeptFrame, FrameInv,
}
use lalah.Video.Race.Moves.{PushFrame-KeptFrame}

-- Frames published behind it do not change a frame.
old_frame :
    (frames new : List (List ℕ)) (f : ℕ)
    → f < length frames
    → get_or (frames ++ new) f [] ≡ get_or frames f []
old_frame frames new f lt = get_or-append [] frames new f ∙ ground arith

-- Frames published meanwhile do not change what the reader knows.
reading-append :
    (me : ShmVideoBuffer) (frames new : List (List ℕ)) (consumer : FrameConsumer)
    → FrameConsumerInv me frames consumer
    → FrameConsumerInv me (frames ++ new) consumer
reading-append me frames new resting c = tt
reading-append me frames new (copying s0 len buf) c = record {
  some_frame = c.some_frame;
  seen = omega (arith, c.seen, length-append frames new);
  few = c.few;
  short = c.short;
  same = λ near j lt.
      c.same (omega (arith, length-append frames new)) j lt
      ∙ ap (λ x. get_or x j 0)
          (sym (old_frame frames new (s0 - 1) (omega (arith, c.seen, c.some_frame))));
}
reading-append me frames new (delivered newest len buf) (lt, e) = (
  omega (arith, length-append frames new),
  e ∙ ap (take len) (sym (old_frame frames new newest lt)),
)

tear_safe_inv :
    (me : ShmVideoBuffer) (s0 s1 : ℕ)
    → 3 ≤ me.slot_count
    → s0 ≤ s1
    → s1 < u64_mod
    → tear_safe me s0 s1 ≡ true
    → s1 + 2 ≤ s0 + me.slot_count
unfolding tear_safe
tear_safe_inv me s0 s1 enough le small h = ground arith

-- A read that its recheck accepts holds the bytes of the frame.
accepted :
    {me : ShmVideoBuffer} {frames : List (List ℕ)} {s0 len : ℕ} {buf : List ℕ}
    → CopiedFrame me frames s0 len buf
    → length buf ≡ len
    → length (get_or frames (s0 - 1) []) ≡ me.frame_size
    → length frames + 2 ≤ s0 + me.slot_count
    → buf ≡ take len (get_or frames (s0 - 1) [])
accepted {me} {frames} {s0} {len} {buf} c full sized near =
    let frame : List ℕ = get_or frames (s0 - 1) [] in
    list_ext 0 buf (take len frame) (omega (arith, length-take len frame, c.short))
      (λ j lt. c.same near j lt ∙ sym (get_or-take 0 len frame j (omega arith)))

-- A step of the reader keeps what it knows.
ReadFrame-reading :
    {me : ShmVideoBuffer} {shm : VideoShm} {frames : List (List ℕ)} {producer : FrameProducer}
    {consumer consumer' : FrameConsumer}
    → KeptFrame me shm frames producer
    → ReadFrame me shm consumer consumer'
    → FrameConsumerInv me frames consumer
    → FrameConsumerInv me frames consumer'
ReadFrame-reading k (nothing_yet e) c = tt
ReadFrame-reading k (load_count out_len set ne) c = record {
  some_frame = omega arith;
  seen = omega (arith, k.count);
  few = omega arith;
  short = omega arith;
  same = λ near j lt. absurd (omega arith);
}
ReadFrame-reading {me} {shm} {frames} k (load_byte {s0} {len} {b} {buf} lt e) c = record {
  some_frame = c.some_frame;
  seen = c.seen;
  few = omega (arith, length-append buf (b ∷ []));
  short = c.short;
  same =
      λ near j h. next near j (omega (arith, length-append buf (b ∷ []))) (dec_lt j (length buf));
}
  where
    next :
        length frames + 2 ≤ s0 + me.slot_count
        → (j : ℕ) → j < length buf + 1
        → Dec (j < length buf)
        → get_or (buf ++ b ∷ []) j 0 ≡ get_or (get_or frames (s0 - 1) []) j 0
    next near j h (yes old) = get_or-append 0 buf (b ∷ []) j ∙ ground arith ∙ c.same near j old
    next near j h (no new) =
        let last : j ≡ length buf = omega arith in
        let at_end : j - length buf ≡ 0 = omega arith in
        get_or-append 0 buf (b ∷ []) j
        ∙ ground (arith, ap (λ t. get_or (b ∷ []) t 0) at_end)
        ∙ read_volatile_inv shm.payload (slot_offset me (s0 - 1) + length buf) b e
        ∙ k.safe (s0 - 1) (length buf) (omega (arith, c.seen, c.some_frame))
            (omega (arith, c.short)) (omega (arith, c.some_frame))
        ∙ ap (λ t. get_or (get_or frames (s0 - 1) []) t 0) (sym last)
ReadFrame-reading {me} {shm} {frames} k (accept {s0} {len} full ok) c =
    let near : shm.hdr.frame_seq + 2 ≤ s0 + me.slot_count =
      tear_safe_inv me s0 shm.hdr.frame_seq k.cut.enough (omega (arith, c.seen, k.count))
        (omega (arith, k.count, k.small)) ok in
    let inside : s0 - 1 < length frames = omega (arith, c.seen, c.some_frame) in
    (inside, accepted c full (k.sized (s0 - 1) inside) (omega (arith, k.count)))
ReadFrame-reading k (refuse full no_good) c = tt
ReadFrame-reading k return c = tt

-- Every step of either side keeps the invariant.
FrameStep-FrameInv :
    {me : ShmVideoBuffer} {σ τ : FrameSystem} → FrameStep me σ τ → FrameInv me σ → FrameInv me τ
FrameStep-FrameInv {me} {σ} (produce {new} st) v = record {
  ring = PushFrame-KeptFrame st v.ring;
  reading = reading-append me σ.frames new σ.consumer v.reading;
}
FrameStep-FrameInv (consume st) v = record {
  ring = v.ring;
  reading = ReadFrame-reading v.ring st v.reading;
}

pub FrameReach-FrameInv :
    {me : ShmVideoBuffer} {start σ : FrameSystem}
    → FrameInv me start
    → FrameReach me start σ
    → FrameInv me σ
FrameReach-FrameInv v here = v
FrameReach-FrameInv v (later r st) = FrameStep-FrameInv st (FrameReach-FrameInv v r)

-- Both sides at rest over a sub-region.
abbrev pub both_rest : VideoShm → List (List ℕ) → FrameSystem
both_rest shm frames = record { shm = shm; producer = idle; consumer = resting; frames = frames }

delivered-IsFrame :
    (me : ShmVideoBuffer) (frames : List (List ℕ)) {c : FrameConsumer} {newest len : ℕ}
    {buf : List ℕ}
    → c ≡ delivered newest len buf
    → FrameConsumerInv me frames c
    → IsFrame frames newest len buf
delivered-IsFrame me frames e i = subst (λ c. FrameConsumerInv me frames c) e i

pub writing_inv :
    (me : ShmVideoBuffer) (shm : VideoShm) (frames : List (List ℕ)) {p : FrameProducer}
    {frame : List ℕ} {seq i : ℕ}
    → p ≡ writing frame seq i
    → FrameProducerInv me shm frames p
    → WritingFrame me shm frames frame seq i
writing_inv me shm frames e i = subst (λ p. FrameProducerInv me shm frames p) e i

module _ {me : ShmVideoBuffer} {shm : VideoShm} {frames : List (List ℕ)} (c : IsCut me shm)
    (h : HoldsFrames me shm frames)
    (sized : (f : ℕ) → f < length frames → length (get_or frames f []) ≡ me.frame_size) where
  pub both_rest-FrameInv : FrameInv me (both_rest shm frames)
  both_rest-FrameInv = record {
    ring = record {
      cut = c;
      count = h.count;
      small = h.small;
      sized = sized;
      safe = λ f j hf hj near.
          sym (get_or-tabulate 0 shm.payload.cell (slot_offset me f) me.frame_size j hj)
          ∙ ap (λ x. get_or x j 0) (h.kept f hf (omega arith));
      pushing = tt;
    };
    reading = tt;
  }

  -- On a handle whose slots are cut out of the sub-region, with both sides at rest over a ring
  -- that holds frames of the handle's size: however pushes and reads interleave, and as long as
  -- fewer than 2^64 frames are pushed in all, a read that its recheck accepts has copied a frame
  -- that was published, the one with the number it returns, as long as the buffer has room for,
  -- and never torn.
  pub frames_untorn :
      {σ : FrameSystem} {newest len : ℕ} {buf : List ℕ}
      → FrameReach me (both_rest shm frames) σ
      → σ.consumer ≡ delivered newest len buf
      → IsFrame σ.frames newest len buf
  frames_untorn {σ} r e =
      delivered-IsFrame me σ.frames e (FrameReach-FrameInv both_rest-FrameInv r).reading

  -- On a handle whose slots are cut out of the sub-region, with both sides at rest over a ring
  -- that holds frames of the handle's size: however pushes and reads interleave, and as long as
  -- fewer than 2^64 frames are pushed in all, a push under way never faults, since storing its
  -- next byte succeeds.
  pub frame_stores_succeed :
      {σ : FrameSystem} {frame : List ℕ} {seq i : ℕ}
      → FrameReach me (both_rest shm frames) σ
      → σ.producer ≡ writing frame seq i
      → i < me.frame_size
      → (m : Memory) × (write_volatile σ.shm.payload (slot_offset me seq + i) (get_or frame i 0)
          ≡ some m)
  unfolding write_volatile
  frame_stores_succeed {σ} {frame} {seq} {i} r e lt =
      let inv = FrameReach-FrameInv both_rest-FrameInv r in
      let at : ℕ = slot_offset me seq + i in
      let inside : at < σ.shm.payload.size = omega (arith, slot_fits inv.ring.cut seq) in
      (
        record σ.shm.payload { cell = update σ.shm.payload.cell at (get_or frame i 0) },
        rw (lt→ltb at σ.shm.payload.size inside) refl,
      )
