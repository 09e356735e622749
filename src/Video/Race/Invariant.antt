-- ===== src/Video/Race/Invariant.antt =====
-- The invariant of the race between a push and a read of frames.
use lalah.Base.{ℕ, ◌+◌, ◌-◌, ◌<◌, ◌≤◌, ◌≡◌, List, [], length, get_or, take, u64_mod}
use lalah.Memory.{Memory}
use lalah.Video.Ring.{VideoShm, ShmVideoBuffer, slot_offset}
use lalah.Video.Ring.Geometry.{IsCut}
use lalah.Video.Race.{
  FrameSystem, FrameProducer, idle, writing, FrameConsumer, resting, copying, delivered,
}

-- The frames whose slots the next push does not touch stand in their slots, byte by byte.
abbrev pub Safe : ShmVideoBuffer → Memory → List (List ℕ) → Type 0
Safe me m frames =
    (f j : ℕ)
    → f < length frames
    → j < me.frame_size
    → length frames < f + me.slot_count
    → m.cell (slot_offset me f + j) ≡ get_or (get_or frames f []) j 0

pub record WritingFrame (me : ShmVideoBuffer) (shm : VideoShm) (frames : List (List ℕ))
    (frame : List ℕ) (seq i : ℕ) : Type 0 where
  pub loaded : seq ≡ length frames
  pub room : length frames + 1 < u64_mod
  pub full : length frame ≡ me.frame_size
  pub so_far : i ≤ me.frame_size
  pub written :
      (j : ℕ) → j < i → shm.payload.cell (slot_offset me (length frames) + j) ≡ get_or frame j 0

abbrev pub FrameProducerInv : ShmVideoBuffer → VideoShm → List (List ℕ) → FrameProducer → Type 0
FrameProducerInv me shm frames idle = Unit {0}
FrameProducerInv me shm frames (writing frame seq i) = WritingFrame me shm frames frame seq i

-- As long as the count has not come near the slot again, the bytes copied are the frame's.
pub record CopiedFrame (me : ShmVideoBuffer) (frames : List (List ℕ)) (s0 len : ℕ) (buf : List ℕ)
    : Type 0 where
  pub some_frame : 0 < s0
  pub seen : s0 ≤ length frames
  pub few : length buf ≤ len
  pub short : len ≤ me.frame_size
  pub same :
      length frames + 2 ≤ s0 + me.slot_count
      → (j : ℕ) → j < length buf
      → get_or buf j 0 ≡ get_or (get_or frames (s0 - 1) []) j 0

-- A frame that was published, as long as the buffer has room for.
abbrev pub IsFrame : List (List ℕ) → (newest len : ℕ) → List ℕ → Type 0
IsFrame frames newest len buf =
    (newest < length frames) × (buf ≡ take len (get_or frames newest []))

abbrev pub FrameConsumerInv : ShmVideoBuffer → List (List ℕ) → FrameConsumer → Type 0
FrameConsumerInv me frames resting = Unit {0}
FrameConsumerInv me frames (copying s0 len buf) = CopiedFrame me frames s0 len buf
FrameConsumerInv me frames (delivered newest len buf) = IsFrame frames newest len buf

-- What a step of the producer keeps.
pub record KeptFrame (me : ShmVideoBuffer) (shm : VideoShm) (frames : List (List ℕ))
    (producer : FrameProducer) : Type 0 where
  pub cut : IsCut me shm
  pub count : shm.hdr.frame_seq ≡ length frames
  pub small : length frames < u64_mod
  pub sized : (f : ℕ) → f < length frames → length (get_or frames f []) ≡ me.frame_size
  pub safe : Safe me shm.payload frames
  pub pushing : FrameProducerInv me shm frames producer

pub record FrameInv (me : ShmVideoBuffer) (σ : FrameSystem) : Type 0 where
  pub ring : KeptFrame me σ.shm σ.frames σ.producer
  pub reading : FrameConsumerInv me σ.frames σ.consumer
