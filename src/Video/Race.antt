-- ===== src/Video/Race.antt =====
-- The producer's `push_frame` and the consumer's `read_frame` (packages/shared/src/lib.rs) over one
-- sub-region, interleaved in any order. The word-wise copies are taken byte by byte, so that there
-- are more interleavings here than in the code. The accesses of a thread take effect in program
-- order.
pub mod Invariant
pub mod Moves
pub mod Safety
pub mod Progress
use lalah.Base.{
  ℕ, ◌+◌, ◌-◌, ◌<◌, ◌≡◌, ◌≢◌, Bool, true, false, ◌||◌, ◌==◌, min, some, List, [], ◌∷◌, ◌++◌, length,
  get_or, u64_mod, wrapping_add,
}
use lalah.Memory.{write_volatile, read_volatile}
use lalah.Memory.WriteFrame.{frame_of}
use lalah.Video.Ring.{VideoShm, ShmVideoBuffer, slot_offset, tear_safe}

-- The guard of both operations: the handle has no geometry.
unfoldable pub no_geometry : ShmVideoBuffer → Bool
no_geometry me = me.frame_size == 0 || me.slot_count == 0

-- Where a push stands. `frame` is what it writes into its slot; `seq` is the count it loaded.
pub data FrameProducer : Type 0 where
  idle : FrameProducer
  writing : (frame : List ℕ) (seq i : ℕ) → FrameProducer

-- Where a read stands, with the locals that are live there.
pub data FrameConsumer : Type 0 where
  resting : FrameConsumer
  copying : (s0 len : ℕ) (buf : List ℕ) → FrameConsumer
  delivered : (newest len : ℕ) (buf : List ℕ) → FrameConsumer

-- One step of a push. The last index is what it appends to the frames published.
pub data PushFrame (me : ShmVideoBuffer) (shm : VideoShm)
    : FrameProducer → VideoShm → FrameProducer → List (List ℕ) → Type 0 where
  skip : no_geometry me ≡ true → PushFrame me shm idle shm idle []
  enter :
      (src : List ℕ)
      → no_geometry me ≡ false
      → shm.hdr.frame_seq + 1 < u64_mod
      → PushFrame me shm idle shm (writing (frame_of src me.frame_size) shm.hdr.frame_seq 0) []
  store :
      {frame : List ℕ} {seq i : ℕ} {shm' : VideoShm}
      → i < me.frame_size
      → write_volatile shm.payload (slot_offset me seq + i) (get_or frame i 0) ≡ some shm'.payload
      → shm'.hdr ≡ shm.hdr
      → PushFrame me shm (writing frame seq i) shm' (writing frame seq (i + 1)) []
  publish :
      {frame : List ℕ} {seq i : ℕ}
      → i ≡ me.frame_size
      → PushFrame me shm
          (writing frame seq i)
          (record shm { hdr = record shm.hdr { frame_seq = wrapping_add seq 1 } })
          idle
          (frame ∷ [])

-- One step of a read. It stores nothing in the region.
pub data ReadFrame (me : ShmVideoBuffer) (shm : VideoShm)
    : FrameConsumer → FrameConsumer → Type 0 where
  nothing_yet : shm.hdr.frame_seq ≡ 0 → ReadFrame me shm resting resting
  load_count :
      (out_len : ℕ)
      → no_geometry me ≡ false
      → shm.hdr.frame_seq ≢ 0
      → ReadFrame me shm resting (copying shm.hdr.frame_seq (min me.frame_size out_len) [])
  load_byte :
      {s0 len b : ℕ} {buf : List ℕ}
      → length buf < len
      → read_volatile shm.payload (slot_offset me (s0 - 1) + length buf) ≡ some b
      → ReadFrame me shm (copying s0 len buf) (copying s0 len (buf ++ b ∷ []))
  accept :
      {s0 len : ℕ} {buf : List ℕ}
      → length buf ≡ len
      → tear_safe me s0 shm.hdr.frame_seq ≡ true
      → ReadFrame me shm (copying s0 len buf) (delivered (s0 - 1) len buf)
  refuse :
      {s0 len : ℕ} {buf : List ℕ}
      → length buf ≡ len
      → tear_safe me s0 shm.hdr.frame_seq ≡ false
      → ReadFrame me shm (copying s0 len buf) resting
  return : {newest len : ℕ} {buf : List ℕ} → ReadFrame me shm (delivered newest len buf) resting

-- Both sides, the region, and the frames published so far.
pub record FrameSystem : Type 0 where
  pub shm : VideoShm
  pub producer : FrameProducer
  pub consumer : FrameConsumer
  pub frames : List (List ℕ)

pub data FrameStep (me : ShmVideoBuffer) (σ : FrameSystem) : FrameSystem → Type 0 where
  produce :
      {shm : VideoShm} {producer : FrameProducer} {new : List (List ℕ)}
      → PushFrame me σ.shm σ.producer shm producer new
      → FrameStep me σ (record σ { shm = shm; producer = producer; frames = σ.frames ++ new })
  consume :
      {consumer : FrameConsumer}
      → ReadFrame me σ.shm σ.consumer consumer
      → FrameStep me σ (record σ { consumer = consumer })

-- The states that the two sides can reach from `start`.
pub data FrameReach (me : ShmVideoBuffer) (start : FrameSystem) : FrameSystem → Type 0 where
  here : FrameReach me start start
  later : {σ τ : FrameSystem} → FrameReach me start σ → FrameStep me σ τ → FrameReach me start τ
