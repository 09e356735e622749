-- ===== src/Audio/Race.antt =====
-- The producer's `push_overwrite` and the consumer's `read_quantum` (packages/shared/src/lib.rs) over
-- one region, interleaved in any order. A step is one access to the shared memory; the accesses of a
-- thread take effect in program order.
pub mod Invariant
pub mod Moves
pub mod Reads
pub mod Safety
pub mod Writes
pub mod Rounds
pub mod Alone
use lalah.Base.{
  ℕ, ◌+◌, ◌-◌, ◌%◌, ◌<◌, ◌≤◌, ◌≡◌, Bool, true, false, Option, some, List, [], ◌∷◌, ◌++◌, ltb, leb,
  if◌then◌else◌, length, get_or, u64_mod, wrapping_add,
}
use lalah.Memory.{write_volatile, read_volatile}
use lalah.Audio.Ring.{Shm, ShmAudioBuffer, Plan, plan, mask, newest, unchanged}

-- The cell that holds byte `i` of a copy of `n` bytes at ring index `start`, in one piece or two.
unfoldable pub byte_index : ShmAudioBuffer → (start n i : ℕ) → ℕ
byte_index me start n i =
    if leb (start + n) me.cap
    then start + i
    else (if ltb i (me.cap - start) then start + i else i - (me.cap - start))

-- Where a push stands. `src` is what it keeps of its source; `tail` and `s` are the words it loaded.
pub data Producer : Type 0 where
  idle : Producer
  writing : (src : List ℕ) (tail s i : ℕ) → Producer
  closing : (s : ℕ) → Producer

-- Where a read stands, with the locals that are live there.
pub data Consumer : Type 0 where
  resting : Consumer
  top : (out_len max_latency frame_bytes : ℕ) → Consumer
  got_seq : (out_len max_latency frame_bytes s0 : ℕ) → Consumer
  got_tail : (out_len max_latency frame_bytes s0 tail : ℕ) → Consumer
  copying : (out_len max_latency frame_bytes s0 : ℕ) (p : Plan) (buf : List ℕ) → Consumer
  got_tail2 :
      (out_len max_latency frame_bytes s0 : ℕ) (p : Plan) (buf : List ℕ) (tail2 : ℕ) → Consumer
  checked : (p : Plan) (buf : List ℕ) → Consumer
  delivered : (p : Plan) (buf : List ℕ) → Consumer

-- One step of a push. The last index is what it appends to the stream of published bytes.
pub data Push (me : ShmAudioBuffer) (shm : Shm) : Producer → Shm → Producer → List ℕ → Type 0 where
  enter :
      (src : List ℕ)
      → 0 < length (newest me src)
      → shm.hdr.seq + 2 < u64_mod
      → shm.hdr.tail + length (newest me src) < u64_mod
      → Push me shm idle
          (record shm { hdr = record shm.hdr { seq = wrapping_add shm.hdr.seq 1 } })
          (writing (newest me src) shm.hdr.tail shm.hdr.seq 0)
          []
  store :
      {src : List ℕ} {tail s i : ℕ} {shm' : Shm}
      → i < length src
      → write_volatile shm.payload (byte_index me (mask me tail) (length src) i) (get_or src i 0)
        ≡ some shm'.payload
      → shm'.hdr ≡ shm.hdr
      → Push me shm (writing src tail s i) shm' (writing src tail s (i + 1)) []
  publish :
      {src : List ℕ} {tail s i : ℕ}
      → i ≡ length src
      → Push me shm
          (writing src tail s i)
          (record shm { hdr = record shm.hdr { tail = wrapping_add tail (length src) } })
          (closing s)
          src
  leave :
      {s : ℕ}
      → Push me shm
          (closing s)
          (record shm { hdr = record shm.hdr { seq = wrapping_add s 2 } })
          idle
          []

-- One step of a read.
pub data Read (me : ShmAudioBuffer) (shm : Shm) : Consumer → Shm → Consumer → Type 0 where
  call :
      (out_len max_latency : ℕ)
      → Read me shm resting shm (top out_len max_latency shm.hdr.frame_bytes)
  spin : {o l fb : ℕ} → shm.hdr.seq % 2 ≡ 1 → Read me shm (top o l fb) shm (top o l fb)
  load_seq :
      {o l fb : ℕ} → shm.hdr.seq % 2 ≡ 0 → Read me shm (top o l fb) shm (got_seq o l fb shm.hdr.seq)
  load_tail :
      {o l fb s0 : ℕ} → Read me shm (got_seq o l fb s0) shm (got_tail o l fb s0 shm.hdr.tail)
  load_head :
      {o l fb s0 tail : ℕ}
      → Read me shm
          (got_tail o l fb s0 tail)
          shm
          (copying o l fb s0 (plan fb o l tail shm.hdr.head) [])
  load_byte :
      {o l fb s0 b : ℕ} {p : Plan} {buf : List ℕ}
      → length buf < p.want
      → read_volatile shm.payload (byte_index me (mask me p.head) p.want (length buf)) ≡ some b
      → Read me shm (copying o l fb s0 p buf) shm (copying o l fb s0 p (buf ++ b ∷ []))
  load_tail2 :
      {o l fb s0 : ℕ} {p : Plan} {buf : List ℕ}
      → length buf ≡ p.want
      → Read me shm (copying o l fb s0 p buf) shm (got_tail2 o l fb s0 p buf shm.hdr.tail)
  accept :
      {o l fb s0 tail2 : ℕ} {p : Plan} {buf : List ℕ}
      → unchanged me s0 shm.hdr.seq tail2 p.head ≡ true
      → Read me shm (got_tail2 o l fb s0 p buf tail2) shm (checked p buf)
  refuse :
      {o l fb s0 tail2 : ℕ} {p : Plan} {buf : List ℕ}
      → unchanged me s0 shm.hdr.seq tail2 p.head ≡ false
      → Read me shm (got_tail2 o l fb s0 p buf tail2) shm (top o l fb)
  store_head :
      {p : Plan} {buf : List ℕ}
      → Read me shm
          (checked p buf)
          (record shm { hdr = record shm.hdr { head = p.head + p.want } })
          (delivered p buf)
  return : {p : Plan} {buf : List ℕ} → Read me shm (delivered p buf) shm resting

-- Both sides, the region, and the bytes published so far.
pub record System : Type 0 where
  pub shm : Shm
  pub producer : Producer
  pub consumer : Consumer
  pub stream : List ℕ

pub data Step (me : ShmAudioBuffer) (σ : System) : System → Type 0 where
  produce :
      {shm : Shm} {producer : Producer} {new : List ℕ}
      → Push me σ.shm σ.producer shm producer new
      → Step me σ (record σ { shm = shm; producer = producer; stream = σ.stream ++ new })
  consume :
      {shm : Shm} {consumer : Consumer}
      → Read me σ.shm σ.consumer shm consumer
      → Step me σ (record σ { shm = shm; consumer = consumer })

-- The states that the two sides can reach from `start`.
pub data Reach (me : ShmAudioBuffer) (start : System) : System → Type 0 where
  here : Reach me start start
  later : {σ τ : System} → Reach me start σ → Step me σ τ → Reach me start τ
