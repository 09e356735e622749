-- ===== src/Audio/Race/Moves.antt =====
-- The steps of the producer, and the invariant.
pub mod Bytes
use lalah.Base.{
  ℕ, zero, suc, ◌+◌, ◌-◌, ◌%◌, ◌<◌, ◌≤◌, ◌≡◌, ◌≢◌, refl, sym, ap, ◌∙◌, List, [], ◌∷◌, ◌++◌, some,
  arith, ltb, ◌==◌, if◌then◌else◌, length, get_or, length-append, get_or-append, u64_mod,
  wrapping_add,
}
use mathlib.Core.List.{append-nil}
use native.Mathlib.Decide.{dec_lt}
use lalah.Base.Rounds.{mod_distinct}
use lalah.Memory.{Memory, update, write_volatile}
use lalah.Audio.Header.{ShmHeader}
use lalah.Audio.Ring.{Shm, ShmAudioBuffer, mask, newest}
use lalah.Audio.Ring.Stream.{IsValid, mask-IsValid, cap_pos, length-newest}
use lalah.Audio.Race.{
  Producer, idle, writing, closing, byte_index, Push, enter, store, publish, leave,
}
use lalah.Audio.Race.Invariant.{KeptUpTo, Quiet, Writing, Closing, ProducerInv}
use Bytes.{byte_index_lem, write_volatile_inv}

-- What a step of the producer keeps.
pub record Kept (me : ShmAudioBuffer) (shm : Shm) (stream : List ℕ) (producer : Producer)
    : Type 0 where
  pub valid : IsValid me shm
  pub small : length stream < u64_mod
  pub pushing : ProducerInv me shm stream producer

enter_keeps :
    {me : ShmAudioBuffer} {shm : Shm} {stream : List ℕ} (src : List ℕ)
    → shm.hdr.seq + 2 < u64_mod
    → shm.hdr.tail + length (newest me src) < u64_mod
    → Kept me shm stream idle
    → Kept me
        (record shm { hdr = record shm.hdr { seq = wrapping_add shm.hdr.seq 1 } })
        stream
        (writing (newest me src) shm.hdr.tail shm.hdr.seq 0)
enter_keeps {me} {shm} {stream} src r q k = record {
  valid = record { log_cap = k.valid.log_cap; cap_pow = k.valid.cap_pow; fits = k.valid.fits };
  small = k.small;
  pushing = record {
    open_seq = omega arith;
    even = k.pushing.even;
    room = omega (arith, k.pushing.count);
    count = k.pushing.count;
    loaded = k.pushing.count;
    few = length-newest me src;
    so_far = omega arith;
    kept = λ p lt near.
        k.pushing.kept p (omega arith) (omega arith)
        ∙ sym (get_or-append 0 stream (newest me src) p ∙ ground arith);
  };
}

store_keeps :
    {me : ShmAudioBuffer} {shm shm' : Shm} {stream src : List ℕ} {tail s i : ℕ}
    → i < length src
    → write_volatile shm.payload (byte_index me (mask me tail) (length src) i) (get_or src i 0)
      ≡ some shm'.payload
    → shm'.hdr ≡ shm.hdr
    → Kept me shm stream (writing src tail s i)
    → Kept me shm' stream (writing src tail s (i + 1))
store_keeps {me} {shm} {shm'} {stream} {src} {tail} {s} {i} lt e h k = record {
  valid = record {
    log_cap = k.valid.log_cap;
    cap_pow = k.valid.cap_pow;
    fits = rw written.0 k.valid.fits;
  };
  small = k.small;
  pushing = record {
    open_seq = ap (λ (w : ShmHeader). w.seq) h ∙ w.open_seq;
    even = w.even;
    room = w.room;
    count = ap (λ (w : ShmHeader). w.tail) h ∙ w.count;
    loaded = w.loaded;
    few = w.few;
    so_far = omega arith;
    kept = kept;
  };
}
  where
    w : Writing me shm stream src tail s i
    w = k.pushing

    total : ℕ
    total = length stream + length src

    at : byte_index me (mask me tail) (length src) i ≡ (length stream + i) % me.cap
    at = byte_index_lem k.valid tail (length src) i w.few lt ∙ ap (λ t. (t + i) % me.cap) w.loaded

    written :
        (shm'.payload.size ≡ shm.payload.size)
        × ((j : ℕ)
            → shm'.payload.cell j
              ≡ update shm.payload.cell
                  (byte_index me (mask me tail) (length src) i)
                  (get_or src i 0)
                  j)
    written =
        write_volatile_inv shm.payload shm'.payload (byte_index me (mask me tail) (length src) i)
          (get_or src i 0) e

    kept : KeptUpTo me.cap shm'.payload (stream ++ src) total (length stream + (i + 1))
    kept p below near = elim (dec_lt p (length stream + i)) [
      | yes old ↦
          let apart : (length stream + i) % me.cap ≢ p % me.cap =
            mod_distinct me.cap p (length stream + i) old (omega arith) in
          written.1 (p % me.cap) ∙ ground (arith, at) ∙ w.kept p old near
      | no new ↦
          let e' : p ≡ length stream + i = omega arith in
          let src_at : p - length stream ≡ i = omega arith in
          written.1 (p % me.cap)
          ∙ ground (
            arith,
            at,
            ap (λ t. t % me.cap) e',
            ap (λ t. get_or src t 0) src_at,
            get_or-append 0 stream src p,
          )
    ]

publish_keeps :
    {me : ShmAudioBuffer} {shm : Shm} {stream src : List ℕ} {tail s i : ℕ}
    → i ≡ length src
    → Kept me shm stream (writing src tail s i)
    → Kept me
        (record shm { hdr = record shm.hdr { tail = wrapping_add tail (length src) } })
        (stream ++ src)
        (closing s)
publish_keeps {me} {shm} {stream} {src} {tail} {s} {i} e k = record {
  valid = record { log_cap = k.valid.log_cap; cap_pow = k.valid.cap_pow; fits = k.valid.fits };
  small = omega (arith, total, k.pushing.room);
  pushing = record {
    open_seq = k.pushing.open_seq;
    even = k.pushing.even;
    room = k.pushing.room.0;
    count = omega (arith, total, k.pushing.room, k.pushing.loaded);
    kept = λ p below near. k.pushing.kept p (omega (arith, total)) (omega (arith, total));
  };
}
  where
    total : length (stream ++ src) ≡ length stream + length src
    total = length-append stream src

leave_keeps :
    {me : ShmAudioBuffer} {shm : Shm} {stream : List ℕ} {s : ℕ}
    → Kept me shm stream (closing s)
    → Kept me (record shm { hdr = record shm.hdr { seq = wrapping_add s 2 } }) stream idle
leave_keeps k = record {
  valid = record { log_cap = k.valid.log_cap; cap_pow = k.valid.cap_pow; fits = k.valid.fits };
  small = k.small;
  pushing = record {
    even = omega (arith, k.pushing.even, k.pushing.room);
    count = k.pushing.count;
    kept = k.pushing.kept;
  };
}

-- Every step of the producer keeps its invariant, with the stream it leaves.
pub Push-Kept :
    {me : ShmAudioBuffer} {shm shm' : Shm} {stream new : List ℕ} {producer producer' : Producer}
    → Push me shm producer shm' producer' new
    → Kept me shm stream producer
    → Kept me shm' (stream ++ new) producer'
Push-Kept (enter src pos r q) k = rw append-nil (enter_keeps src r q k)
Push-Kept (store lt e h) k = rw append-nil (store_keeps lt e h k)
Push-Kept (publish e) k = publish_keeps e k
Push-Kept leave k = rw append-nil (leave_keeps k)
