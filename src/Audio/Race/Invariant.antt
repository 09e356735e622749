-- ===== src/Audio/Race/Invariant.antt =====
-- The invariant of the race between a push and a read.
use lalah.Base.{ℕ, ◌+◌, ◌%◌, ◌<◌, ◌≤◌, ◌≡◌, List, ◌++◌, length, get_or, u64_mod}
use lalah.Memory.{Memory}
use lalah.Audio.Ring.{Shm, ShmAudioBuffer, Plan, mask}
use lalah.Audio.Ring.Stream.{IsValid}
use lalah.Audio.Ring.Read.{slice}
use lalah.Audio.Race.{
  System, Producer, idle, writing, closing, Consumer, resting, top, got_seq, got_tail, copying,
  got_tail2, checked, delivered, byte_index,
}

-- Of a stream that is growing to `total` bytes, the positions below `ready` that survive stand in
-- their cells.
abbrev pub KeptUpTo : ℕ → Memory → List ℕ → (total ready : ℕ) → Type 0
KeptUpTo cap m all total ready =
    (p : ℕ) → p < ready → total ≤ p + cap → m.cell (p % cap) ≡ get_or all p 0

-- The ring is at rest: the counter is even, and the ring holds the stream.
pub record Quiet (me : ShmAudioBuffer) (shm : Shm) (stream : List ℕ) : Type 0 where
  pub even : shm.hdr.seq % 2 ≡ 0
  pub count : shm.hdr.tail ≡ length stream
  pub kept : KeptUpTo me.cap shm.payload stream (length stream) (length stream)

pub record Writing (me : ShmAudioBuffer) (shm : Shm) (stream src : List ℕ) (tail s i : ℕ)
    : Type 0 where
  pub open_seq : shm.hdr.seq ≡ s + 1
  pub even : s % 2 ≡ 0
  pub room : (s + 2 < u64_mod) × (length stream + length src < u64_mod)
  pub count : shm.hdr.tail ≡ length stream
  pub loaded : tail ≡ length stream
  pub few : length src ≤ me.cap
  pub so_far : i ≤ length src
  pub kept :
      KeptUpTo me.cap shm.payload (stream ++ src) (length stream + length src) (length stream + i)

pub record Closing (me : ShmAudioBuffer) (shm : Shm) (stream : List ℕ) (s : ℕ) : Type 0 where
  pub open_seq : shm.hdr.seq ≡ s + 1
  pub even : s % 2 ≡ 0
  pub room : s + 2 < u64_mod
  pub count : shm.hdr.tail ≡ length stream
  pub kept : KeptUpTo me.cap shm.payload stream (length stream) (length stream)

abbrev pub ProducerInv : ShmAudioBuffer → Shm → List ℕ → Producer → Type 0
ProducerInv me shm stream idle = Quiet me shm stream
ProducerInv me shm stream (writing src tail s i) = Writing me shm stream src tail s i
ProducerInv me shm stream (closing s) = Closing me shm stream s

-- The counter that the reader loaded was even, and the counter never goes back.
abbrev pub Seen : Shm → ℕ → Type 0
Seen shm s0 = (s0 % 2 ≡ 0) × (s0 ≤ shm.hdr.seq)

-- If the counter has not moved since, the bytes copied so far are those in the cells.
pub record Copied (me : ShmAudioBuffer) (shm : Shm) (stream : List ℕ) (s0 : ℕ) (p : Plan)
    (buf : List ℕ) : Type 0 where
  pub seen : Seen shm s0
  pub few : length buf ≤ p.want
  pub inside : shm.hdr.seq ≡ s0 → p.head + p.want ≤ length stream
  pub same :
      shm.hdr.seq ≡ s0
      → (j : ℕ) → j < length buf
      → get_or buf j 0 ≡ shm.payload.cell (byte_index me (mask me p.head) p.want j)

-- What a read that has passed its recheck holds: the published bytes from its position on.
abbrev pub IsSlice : List ℕ → Plan → List ℕ → Type 0
IsSlice stream p buf = (p.head + p.want ≤ length stream) × (buf ≡ slice stream p.head p.want)

abbrev pub ConsumerInv : ShmAudioBuffer → Shm → List ℕ → Consumer → Type 0
ConsumerInv me shm stream resting = Unit {0}
ConsumerInv me shm stream (top o l fb) = Unit {0}
ConsumerInv me shm stream (got_seq o l fb s0) = Seen shm s0
ConsumerInv me shm stream (got_tail o l fb s0 tail) =
    Seen shm s0 × (shm.hdr.seq ≡ s0 → tail ≡ length stream)
ConsumerInv me shm stream (copying o l fb s0 p buf) = Copied me shm stream s0 p buf
ConsumerInv me shm stream (got_tail2 o l fb s0 p buf tail2) =
    Copied me shm stream s0 p buf
    × (length buf ≡ p.want)
    × (shm.hdr.seq ≡ s0 → tail2 ≡ length stream)
ConsumerInv me shm stream (checked p buf) = IsSlice stream p buf
ConsumerInv me shm stream (delivered p buf) = IsSlice stream p buf

pub record Inv (me : ShmAudioBuffer) (σ : System) : Type 0 where
  pub valid : IsValid me σ.shm
  pub small : length σ.stream < u64_mod
  pub pushing : ProducerInv me σ.shm σ.stream σ.producer
  pub reading : ConsumerInv me σ.shm σ.stream σ.consumer
