-- ===== src/Audio/Race/Rounds.antt =====
-- The rounds of a read (packages/shared/src/lib.rs): when one is refused, and that a read which the
-- producer leaves alone ends.
use lalah.Base.{
  ℕ, ◌+◌, ◌%◌, ◌<◌, ◌≤◌, ◌≡◌, ◌≢◌, subst, true, false, List, ◌++◌, arith, length, u64_mod,
}
use lalah.Audio.Ring.{Shm, ShmAudioBuffer, Plan, unchanged}
use lalah.Audio.Ring.Stream.{IsValid, Holds}
use lalah.Audio.Ring.Window.{budget, plan-head, plan_bounds}
use lalah.Audio.Race.{
  System, Producer, Push, Consumer, resting, top, got_seq, got_tail, copying, got_tail2, checked,
  delivered, Read, call, spin, load_seq, load_tail, load_head, load_byte, load_tail2, accept,
  refuse, store_head, return, produce, consume, Reach, here, later,
}
use lalah.Audio.Race.Invariant.{Inv, ProducerInv, ConsumerInv}
use lalah.Audio.Race.Reads.{Push-moved}
use lalah.Audio.Race.Safety.{at_rest, Reach-Inv, at_rest-Inv}

-- If the counter has not moved since and the budget fits the ring, the plan starts in the ring.
abbrev pub Near : ShmAudioBuffer → Shm → List ℕ → (o l fb s0 : ℕ) → Plan → Type 0
Near me shm stream o l fb s0 p =
    (p.want ≤ o)
    × (shm.hdr.seq ≡ s0
        → budget fb l ≤ me.cap
        → (p.head ≤ length stream) × (length stream ≤ p.head + me.cap))

abbrev pub RoundInv : ShmAudioBuffer → Shm → List ℕ → Consumer → Type 0
RoundInv me shm stream resting = Unit {0}
RoundInv me shm stream (top o l fb) = Unit {0}
RoundInv me shm stream (got_seq o l fb s0) = Unit {0}
RoundInv me shm stream (got_tail o l fb s0 tail) = Unit {0}
RoundInv me shm stream (copying o l fb s0 p buf) = Near me shm stream o l fb s0 p
RoundInv me shm stream (got_tail2 o l fb s0 p buf tail2) = Near me shm stream o l fb s0 p
RoundInv me shm stream (checked p buf) = Unit {0}
RoundInv me shm stream (delivered p buf) = Unit {0}

Push-RoundInv :
    {me : ShmAudioBuffer} {shm shm' : Shm} {new : List ℕ} {producer producer' : Producer}
    (stream : List ℕ) (consumer : Consumer)
    → Push me shm producer shm' producer' new
    → ProducerInv me shm stream producer
    → ConsumerInv me shm stream consumer
    → RoundInv me shm stream consumer
    → RoundInv me shm' (stream ++ new) consumer
Push-RoundInv stream resting st k c r = tt
Push-RoundInv stream (top o l fb) st k c r = tt
Push-RoundInv stream (got_seq o l fb s0) st k c r = tt
Push-RoundInv stream (got_tail o l fb s0 tail) st k c r = tt
Push-RoundInv stream (copying o l fb s0 p buf) st k c r =
    (r.0, λ e. absurd ((Push-moved stream st k c.seen).1 e))
Push-RoundInv stream (got_tail2 o l fb s0 p buf tail2) st k c r =
    (r.0, λ e. absurd ((Push-moved stream st k c.0.seen).1 e))
Push-RoundInv stream (checked p buf) st k c r = tt
Push-RoundInv stream (delivered p buf) st k c r = tt

pub Read-RoundInv :
    {me : ShmAudioBuffer} {shm shm' : Shm} {consumer consumer' : Consumer} (stream : List ℕ)
    → Read me shm consumer shm' consumer'
    → ConsumerInv me shm stream consumer
    → RoundInv me shm stream consumer
    → RoundInv me shm' stream consumer'
Read-RoundInv stream (call o l) c r = tt
Read-RoundInv stream (spin odd) c r = tt
Read-RoundInv stream (load_seq even) c r = tt
Read-RoundInv stream load_tail c r = tt
Read-RoundInv {me} {shm} stream (load_head {o} {l} {fb} {s0} {tail}) (seen, c) r =
    let (whole, few, inside) = plan_bounds fb o l tail shm.hdr.head in
    let (low, near, past) = plan-head fb o l tail shm.hdr.head in
    (few, λ e le. (omega (arith, c e), omega (arith, c e)))
Read-RoundInv stream (load_byte lt e) c r = r
Read-RoundInv stream (load_tail2 full) c r = r
Read-RoundInv stream (accept ok) c r = tt
Read-RoundInv stream (refuse no_good) c r = tt
Read-RoundInv stream store_head c r = tt
Read-RoundInv stream return c r = tt

pub Reach-RoundInv :
    {me : ShmAudioBuffer} {start σ : System}
    → Inv me start
    → RoundInv me start.shm start.stream start.consumer
    → Reach me start σ
    → RoundInv me σ.shm σ.stream σ.consumer
Reach-RoundInv v r here = r
Reach-RoundInv v r (later {σ} reach (produce st)) =
    let inv = Reach-Inv v reach in
    Push-RoundInv σ.stream σ.consumer st inv.pushing inv.reading (Reach-RoundInv v r reach)
Reach-RoundInv v r (later {σ} reach (consume st)) =
    Read-RoundInv σ.stream st (Reach-Inv v reach).reading (Reach-RoundInv v r reach)

unchanged_lem :
    (me : ShmAudioBuffer) (s0 s1 tail2 head : ℕ)
    → s1 ≡ s0
    → head ≤ tail2
    → tail2 ≤ head + me.cap
    → tail2 < u64_mod
    → unchanged me s0 s1 tail2 head ≡ true
unfolding unchanged
unchanged_lem me s0 s1 tail2 head e low near small = ground arith

-- While the counter is where the read loaded it, its recheck accepts.
pub accepts :
    {me : ShmAudioBuffer} {shm : Shm} {stream : List ℕ} (o l fb : ℕ) {s0 tail2 : ℕ} {p : Plan}
    {buf : List ℕ}
    → length stream < u64_mod
    → ConsumerInv me shm stream (got_tail2 o l fb s0 p buf tail2)
    → Near me shm stream o l fb s0 p
    → budget fb l ≤ me.cap
    → shm.hdr.seq ≡ s0
    → unchanged me s0 shm.hdr.seq tail2 p.head ≡ true
accepts {me} {shm} o l fb {s0} {tail2} {p} small (c, full, e2) (few, near) le e =
    let (low, high) = near e le in
    let at : tail2 ≡ _ = e2 e in
    unchanged_lem me s0 shm.hdr.seq tail2 p.head e (omega (arith, at)) (omega (arith, at))
      (omega (arith, at))

module _ {me : ShmAudioBuffer} {shm : Shm} {stream : List ℕ} (v : IsValid me shm)
    (h : Holds me shm stream) (even : shm.hdr.seq % 2 ≡ 0) where
  -- On a valid ring that holds a stream, with both sides at rest and `seq` even to begin with: in
  -- every state that pushes and reads reach in which the recheck refuses a round whose budget in
  -- whole frames fits the ring, `seq` has grown since the round loaded it, so that only a push
  -- makes a read go round again.
  pub refused_moved :
      {σ : System} {o l fb s0 tail2 : ℕ} {p : Plan} {buf : List ℕ}
      → Reach me (at_rest shm stream) σ
      → σ.consumer ≡ got_tail2 o l fb s0 p buf tail2
      → budget fb l ≤ me.cap
      → unchanged me s0 σ.shm.hdr.seq tail2 p.head ≡ false
      → s0 < σ.shm.hdr.seq
  refused_moved {σ} {o} {l} {fb} {s0} {tail2} {p} {buf} r e le no_good =
      let inv = Reach-Inv (at_rest-Inv v h even) r in
      let known : ConsumerInv me σ.shm σ.stream (got_tail2 o l fb s0 p buf tail2) =
        subst (ConsumerInv me σ.shm σ.stream) e inv.reading in
      let near : Near me σ.shm σ.stream o l fb s0 p =
        subst (RoundInv me σ.shm σ.stream) e (Reach-RoundInv (at_rest-Inv v h even) tt r) in
      let moved : σ.shm.hdr.seq ≢ s0 =
        λ same. absurd (ground (arith, accepts o l fb inv.small known near le same)) in
      omega (arith, moved, known.0.seen)
