-- ===== src/Audio/Race/Safety.antt =====
-- The reachable states of the race: what a read delivers, and where a push stores.
use lalah.Base.{ℕ, ◌+◌, ◌%◌, ◌<◌, ◌≡◌, subst, refl, List, some, arith, length, get_or, lt→ltb}
use native.Mathlib.Nat.{mod-lt}
use lalah.Memory.{Memory, write_volatile, update}
use lalah.Audio.Ring.{Shm, ShmAudioBuffer, Plan, mask}
use lalah.Audio.Ring.Stream.{IsValid, Holds, cap_pos}
use lalah.Audio.Race.{
  System, Producer, idle, writing, Consumer, resting, delivered, byte_index, Step, produce, consume,
  Reach, here, later,
}
use lalah.Audio.Race.Invariant.{Inv, Writing, IsSlice, ConsumerInv, ProducerInv}
use lalah.Audio.Race.Moves.{Kept, Push-Kept}
use lalah.Audio.Race.Moves.Bytes.{byte_index_lem}
use lalah.Audio.Race.Reads.{Push-reading, Read-reading, Read-Kept}

-- Both sides at rest over a region.
abbrev pub at_rest : Shm → List ℕ → System
at_rest shm stream = record { shm = shm; producer = idle; consumer = resting; stream = stream }

kept : {me : ShmAudioBuffer} {σ : System} → Inv me σ → Kept me σ.shm σ.stream σ.producer
kept v = record { valid = v.valid; small = v.small; pushing = v.pushing }

-- Every step of either side keeps the invariant.
Step-Inv : {me : ShmAudioBuffer} {σ τ : System} → Step me σ τ → Inv me σ → Inv me τ
Step-Inv {σ} (produce st) v =
    let k = Push-Kept st (kept v) in
    record {
      valid = k.valid;
      small = k.small;
      pushing = k.pushing;
      reading = Push-reading σ.stream σ.consumer st v.pushing v.reading;
    }
Step-Inv {σ} (consume st) v =
    let k = Read-Kept σ.producer st (kept v) in
    record {
      valid = k.valid;
      small = k.small;
      pushing = k.pushing;
      reading = Read-reading σ.stream σ.producer v.valid v.small v.pushing st v.reading;
    }

pub Reach-Inv :
    {me : ShmAudioBuffer} {start σ : System} → Inv me start → Reach me start σ → Inv me σ
Reach-Inv v here = v
Reach-Inv v (later r st) = Step-Inv st (Reach-Inv v r)

delivered-IsSlice :
    (me : ShmAudioBuffer) (shm : Shm) (stream : List ℕ) {c : Consumer} {p : Plan} {buf : List ℕ}
    → c ≡ delivered p buf
    → ConsumerInv me shm stream c
    → IsSlice stream p buf
delivered-IsSlice me shm stream e i = subst (λ c. ConsumerInv me shm stream c) e i

pub writing_inv :
    (me : ShmAudioBuffer) (shm : Shm) (stream : List ℕ) {c : Producer} {src : List ℕ} {tail s i : ℕ}
    → c ≡ writing src tail s i
    → ProducerInv me shm stream c
    → Writing me shm stream src tail s i
writing_inv me shm stream e i = subst (λ c. ProducerInv me shm stream c) e i

module _ {me : ShmAudioBuffer} {shm : Shm} {stream : List ℕ} (v : IsValid me shm)
    (h : Holds me shm stream) (even : shm.hdr.seq % 2 ≡ 0) where
  pub at_rest-Inv : Inv me (at_rest shm stream)
  at_rest-Inv = record {
    valid = v;
    small = h.small;
    pushing = record { even = even; count = h.count; kept = h.kept };
    reading = tt;
  }

  -- On a valid ring that holds a stream, with both sides at rest and `seq` even to begin with:
  -- however pushes and reads interleave, the bytes that a read delivers are consecutive bytes of
  -- the published stream, from the position where the read began, never torn and never
  -- overwritten.
  pub reads_untorn :
      {σ : System} {p : Plan} {buf : List ℕ}
      → Reach me (at_rest shm stream) σ
      → σ.consumer ≡ delivered p buf
      → IsSlice σ.stream p buf
  reads_untorn {σ} r e = delivered-IsSlice me σ.shm σ.stream e (Reach-Inv at_rest-Inv r).reading

  -- On a valid ring that holds a stream, with both sides at rest and `seq` even to begin with:
  -- however pushes and reads interleave, a push under way never faults, since storing its next
  -- byte succeeds.
  pub stores_succeed :
      {σ : System} {src : List ℕ} {tail s i : ℕ}
      → Reach me (at_rest shm stream) σ
      → σ.producer ≡ writing src tail s i
      → i < length src
      → (m : Memory) × (write_volatile σ.shm.payload
            (byte_index me (mask me tail) (length src) i)
            (get_or src i 0)
          ≡ some m)
  unfolding write_volatile
  stores_succeed {σ} {src} {tail} {i} r e lt =
      let inv = Reach-Inv at_rest-Inv r in
      let w = writing_inv me σ.shm σ.stream e inv.pushing in
      let inside : byte_index me (mask me tail) (length src) i < σ.shm.payload.size = omega (
        arith,
        byte_index_lem inv.valid tail (length src) i w.few lt,
        mod-lt (tail + i) (cap_pos inv.valid),
        inv.valid.fits,
      ) in
      let at : ℕ = byte_index me (mask me tail) (length src) i in
      (
        record σ.shm.payload { cell = update σ.shm.payload.cell at (get_or src i 0) },
        rw (lt→ltb at σ.shm.payload.size inside) refl,
      )
