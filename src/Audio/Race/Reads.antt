-- ===== src/Audio/Race/Reads.antt =====
-- The reader's part of the invariant, under the steps of either side.
use lalah.Base.{
  ℕ, ◌+◌, ◌-◌, ◌%◌, ◌<◌, ◌≤◌, ◌≡◌, ◌≢◌, sym, ap, ◌∙◌, true, List, [], ◌∷◌, ◌++◌, arith, length,
  get_or, drop, tabulate, length-append, length-take, length-drop, length-tabulate, get_or-append,
  get_or-take, get_or-drop, get_or-tabulate, list_ext, u64_mod, wrapping_sub,
}
use native.Mathlib.Decide.{dec_lt}
use native.Mathlib.Nat.{mod-add-mod}
use lalah.Audio.Header.{ShmHeader}
use lalah.Audio.Ring.{Shm, ShmAudioBuffer, Plan, mask, unchanged}
use lalah.Audio.Ring.Stream.{IsValid}
use lalah.Audio.Ring.Read.{slice, Kept-slice}
use lalah.Audio.Ring.Window.{plan_bounds}
use lalah.Audio.Race.{
  Producer, idle, writing, closing, Push, enter, store, publish, leave, Consumer, resting, top,
  got_seq, got_tail, copying, got_tail2, checked, delivered, byte_index, Read, call, spin, load_seq,
  load_tail, load_head, load_byte, load_tail2, accept, refuse, store_head, return,
}
use lalah.Audio.Race.Invariant.{Quiet, ProducerInv, Seen, Copied, IsSlice, ConsumerInv}
use lalah.Audio.Race.Moves.{Kept}
use lalah.Audio.Race.Moves.Bytes.{byte_index_lem, read_volatile_inv}

-- A step of the producer moves the counter away from any even value seen before.
pub Push-moved :
    {me : ShmAudioBuffer} {shm shm' : Shm} {new : List ℕ} {producer producer' : Producer} {s0 : ℕ}
    (stream : List ℕ)
    → Push me shm producer shm' producer' new
    → ProducerInv me shm stream producer
    → Seen shm s0
    → Seen shm' s0 × (shm'.hdr.seq ≢ s0)
Push-moved stream (enter src pos r q) k seen = omega (arith, k.even)
Push-moved stream (store lt e h) k seen =
    omega (arith, k.even, k.open_seq, ap (λ (w : ShmHeader). w.seq) h)
Push-moved stream (publish e) k seen = omega (arith, k.even, k.open_seq)
Push-moved stream leave k seen = omega (arith, k.even, k.open_seq, k.room)

-- Bytes behind its end do not change a slice.
pub slice-append :
    (stream new : List ℕ) (p n : ℕ)
    → p + n ≤ length stream
    → slice (stream ++ new) p n ≡ slice stream p n
slice-append stream new p n le =
    list_ext 0 (slice (stream ++ new) p n) (slice stream p n)
      (omega (
        arith,
        length-take n (drop p (stream ++ new)),
        length-drop p (stream ++ new),
        length-append stream new,
        length-take n (drop p stream),
        length-drop p stream,
      ))
      (λ i lt. element i (omega (arith, length-take n (drop p (stream ++ new)))))
  where
    element :
        (i : ℕ) → i < n → get_or (slice (stream ++ new) p n) i 0 ≡ get_or (slice stream p n) i 0
    element i lt =
        get_or-take 0 n (drop p (stream ++ new)) i lt
        ∙ get_or-drop 0 p (stream ++ new) i
        ∙ get_or-append 0 stream new (p + i)
        ∙ ground arith
        ∙ sym (get_or-drop 0 p stream i)
        ∙ sym (get_or-take 0 n (drop p stream) i lt)

IsSlice-append :
    (stream new : List ℕ) (p : Plan) (buf : List ℕ)
    → IsSlice stream p buf
    → IsSlice (stream ++ new) p buf
IsSlice-append stream new p buf (le, e) =
    (omega (arith, length-append stream new), e ∙ sym (slice-append stream new p.head p.want le))

-- A step of the producer keeps what the reader knows.
pub Push-reading :
    {me : ShmAudioBuffer} {shm shm' : Shm} {new : List ℕ} {producer producer' : Producer}
    (stream : List ℕ) (consumer : Consumer)
    → Push me shm producer shm' producer' new
    → ProducerInv me shm stream producer
    → ConsumerInv me shm stream consumer
    → ConsumerInv me shm' (stream ++ new) consumer
Push-reading stream resting st k c = tt
Push-reading stream (top o l fb) st k c = tt
Push-reading stream (got_seq o l fb s0) st k c = (Push-moved stream st k c).0
Push-reading stream (got_tail o l fb s0 tail) st k (seen, c) =
    let (seen', ne) = Push-moved stream st k seen in (seen', λ e. absurd (ne e))
Push-reading stream (copying o l fb s0 p buf) st k c =
    let (seen', ne) = Push-moved stream st k c.seen in
    record { seen = seen'; few = c.few; inside = λ e. absurd (ne e); same = λ e. absurd (ne e) }
Push-reading stream (got_tail2 o l fb s0 p buf tail2) st k (c, full, e2) =
    let (seen', ne) = Push-moved stream st k c.seen in
    (
      record { seen = seen'; few = c.few; inside = λ e. absurd (ne e); same = λ e. absurd (ne e) },
      full,
      λ e. absurd (ne e),
    )
Push-reading {new} stream (checked p buf) st k c = IsSlice-append stream new p buf c
Push-reading {new} stream (delivered p buf) st k c = IsSlice-append stream new p buf c

-- While the counter is even no push is under way, and the ring holds the stream.
at_rest :
    {me : ShmAudioBuffer} {shm : Shm} {stream : List ℕ} (producer : Producer)
    → ProducerInv me shm stream producer
    → shm.hdr.seq % 2 ≡ 0
    → Quiet me shm stream
at_rest idle k e = k
at_rest (writing src tail s i) k e = absurd (omega (arith, k.even, k.open_seq))
at_rest (closing s) k e = absurd (omega (arith, k.even, k.open_seq))

unchanged_inv :
    (me : ShmAudioBuffer) (s0 s1 tail2 head : ℕ)
    → unchanged me s0 s1 tail2 head ≡ true
    → (s1 ≡ s0) × (wrapping_sub tail2 head ≤ me.cap)
unfolding unchanged
unchanged_inv me s0 s1 tail2 head h = ground arith

module _ {me : ShmAudioBuffer} {shm : Shm} {stream : List ℕ} {s0 : ℕ} {p : Plan} {buf : List ℕ}
    (v : IsValid me shm) (small : length stream < u64_mod) (c : Copied me shm stream s0 p buf)
    (full : length buf ≡ p.want) where
  -- Bytes copied from a ring at rest that has not been lapped are those of the stream.
  copied_slice :
      Quiet me shm stream
      → shm.hdr.seq ≡ s0
      → length stream ≤ p.head + me.cap
      → buf ≡ slice stream p.head p.want
  copied_slice q e near =
      list_ext 0 buf (tabulate at 0 p.want) (full ∙ sym (length-tabulate at 0 p.want))
        (λ i lt. element i lt)
      ∙ Kept-slice me.cap shm.payload stream p.head p.want q.kept (c.inside e) near
    where
      at : ℕ → ℕ
      at i = shm.payload.cell ((p.head % me.cap + i) % me.cap)

      element : (i : ℕ) → i < length buf → get_or buf i 0 ≡ get_or (tabulate at 0 p.want) i 0
      element i lt =
          c.same e i lt
          ∙ ap shm.payload.cell (
              byte_index_lem v p.head p.want i (omega (arith, c.inside e)) (omega arith)
              ∙ sym (
                  mod-add-mod p.head me.cap (0 + i)
                  ∙ ap (λ t. (p.head + t) % me.cap) (omega arith)))
          ∙ sym (get_or-tabulate 0 at 0 p.want i (omega arith))

  -- A read that passes its recheck holds the bytes of the stream.
  pub accepted :
      {tail2 : ℕ} (producer : Producer)
      → ProducerInv me shm stream producer
      → (shm.hdr.seq ≡ s0 → tail2 ≡ length stream)
      → unchanged me s0 shm.hdr.seq tail2 p.head ≡ true
      → IsSlice stream p buf
  accepted {tail2} producer k e2 ok =
      let (e, near) = unchanged_inv me s0 shm.hdr.seq tail2 p.head ok in
      let le : p.head + p.want ≤ length stream = c.inside e in
      let t2 : tail2 ≡ length stream = e2 e in
      let q : Quiet me shm stream = at_rest producer k (omega (arith, c.seen)) in
      (le, copied_slice q e (omega arith))

-- `head` is the reader's own: nothing that the producer relies on depends on it.
head_keeps :
    {me : ShmAudioBuffer} {shm : Shm} {stream : List ℕ} (producer : Producer) (h : ℕ)
    → Kept me shm stream producer
    → Kept me (record shm { hdr = record shm.hdr { head = h } }) stream producer
head_keeps {me} {shm} {stream} producer h k = record {
  valid = record { log_cap = k.valid.log_cap; cap_pow = k.valid.cap_pow; fits = k.valid.fits };
  small = k.small;
  pushing = pushing producer k.pushing;
}
  where
    pushing :
        (q : Producer)
        → ProducerInv me shm stream q
        → ProducerInv me (record shm { hdr = record shm.hdr { head = h } }) stream q
    pushing idle c = record { even = c.even; count = c.count; kept = c.kept }
    pushing (writing src tail s i) c = record {
      open_seq = c.open_seq;
      even = c.even;
      room = c.room;
      count = c.count;
      loaded = c.loaded;
      few = c.few;
      so_far = c.so_far;
      kept = c.kept;
    }
    pushing (closing s) c = record {
      open_seq = c.open_seq;
      even = c.even;
      room = c.room;
      count = c.count;
      kept = c.kept;
    }

-- A step of the reader keeps what it knows.
pub Read-reading :
    {me : ShmAudioBuffer} {shm shm' : Shm} {consumer consumer' : Consumer} (stream : List ℕ)
    (producer : Producer)
    → IsValid me shm
    → length stream < u64_mod
    → ProducerInv me shm stream producer
    → Read me shm consumer shm' consumer'
    → ConsumerInv me shm stream consumer
    → ConsumerInv me shm' stream consumer'
Read-reading stream producer v small k (call o l) c = tt
Read-reading stream producer v small k (spin odd) c = tt
Read-reading stream producer v small k (load_seq even) c = omega arith
Read-reading {shm} stream producer v small k load_tail c =
    (c, λ e. (at_rest producer k (omega arith)).count)
Read-reading {shm} stream producer v small k (load_head {o} {l} {fb} {s0} {tail}) (seen, c) =
    record {
      seen = seen;
      few = omega arith;
      inside = λ e. omega (arith, c e, plan_bounds fb o l tail shm.hdr.head);
      same = λ e j lt. absurd (omega arith);
    }
Read-reading {me} {shm} stream producer v small k (load_byte {s0} {b} {p} {buf} lt e) c = record {
  seen = c.seen;
  few = omega (arith, length-append buf (b ∷ []));
  inside = c.inside;
  same = λ e' j h. next e' j (omega (arith, length-append buf (b ∷ []))) (dec_lt j (length buf));
}
  where
    next :
        shm.hdr.seq ≡ s0
        → (j : ℕ) → j < length buf + 1
        → Dec (j < length buf)
        → get_or (buf ++ b ∷ []) j 0 ≡ shm.payload.cell (byte_index me (mask me p.head) p.want j)
    next e' j h (yes old) = get_or-append 0 buf (b ∷ []) j ∙ ground arith ∙ c.same e' j old
    next e' j h (no new) =
        let last : j ≡ length buf = omega arith in
        let at_end : j - length buf ≡ 0 = omega arith in
        get_or-append 0 buf (b ∷ []) j
        ∙ ground (
          arith,
          ap (λ t. get_or (b ∷ []) t 0) at_end,
          read_volatile_inv shm.payload (byte_index me (mask me p.head) p.want (length buf)) b e,
          ap (λ t. shm.payload.cell (byte_index me (mask me p.head) p.want t)) last,
        )
Read-reading stream producer v small k (load_tail2 full) c =
    (c, full, λ e. (at_rest producer k (omega (arith, c.seen))).count)
Read-reading stream producer v small k (accept ok) (c, full, e2) =
    accepted v small c full producer k e2 ok
Read-reading stream producer v small k (refuse no_good) c = tt
Read-reading stream producer v small k store_head c = c
Read-reading stream producer v small k return c = tt

-- A step of the reader touches nothing that the producer relies on.
pub Read-Kept :
    {me : ShmAudioBuffer} {shm shm' : Shm} {stream : List ℕ} {consumer consumer' : Consumer}
    (producer : Producer)
    → Read me shm consumer shm' consumer'
    → Kept me shm stream producer
    → Kept me shm' stream producer
Read-Kept producer (call o l) k = k
Read-Kept producer (spin odd) k = k
Read-Kept producer (load_seq even) k = k
Read-Kept producer load_tail k = k
Read-Kept producer load_head k = k
Read-Kept producer (load_byte lt e) k = k
Read-Kept producer (load_tail2 full) k = k
Read-Kept producer (accept ok) k = k
Read-Kept producer (refuse no_good) k = k
Read-Kept producer (store_head {p}) k = head_keeps producer (p.head + p.want) k
Read-Kept producer return k = k
