-- ===== src/Audio/Race/Alone.antt =====
-- A read that the producer leaves alone (packages/shared/src/lib.rs) ends in its first round.
use lalah.Base.{
  ℕ, suc, ◌+◌, ◌-◌, ◌%◌, ◌<◌, ◌≤◌, ◌≡◌, ◌≢◌, ◌⊎◌, inl, inr, refl, sym, ap, subst, List, [], ◌∷◌,
  some, arith, length, length-append, lt→ltb, u64_mod,
}
use native.Mathlib.Decide.{dec_lt}
use native.Mathlib.Nat.{mod-lt}
use lalah.Memory.{Memory, read_volatile}
use lalah.Audio.Ring.{Shm, ShmAudioBuffer, Plan, mask}
use lalah.Audio.Ring.Stream.{IsValid, Holds, cap_pos}
use lalah.Audio.Ring.Window.{budget, plan_bounds}
use lalah.Audio.Race.{
  System, Consumer, resting, top, got_seq, got_tail, copying, got_tail2, checked, delivered,
  byte_index, Read, call, spin, load_seq, load_tail, load_head, load_byte, load_tail2, accept,
  refuse, store_head, return, consume, Reach, later,
}
use lalah.Audio.Race.Invariant.{Inv, Copied, ConsumerInv}
use lalah.Audio.Race.Moves.Bytes.{byte_index_lem}
use lalah.Audio.Race.Safety.{at_rest, Reach-Inv, at_rest-Inv}
use lalah.Audio.Race.Rounds.{Near, RoundInv, Reach-RoundInv, accepts}

-- Steps of the read alone, `n` of them, up to its end.
pub data Alone (me : ShmAudioBuffer) : System → ℕ → System → Type 0 where
  rests : {σ : System} → Alone me σ 0 σ
  reads :
      {σ τ : System} {shm : Shm} {consumer : Consumer} {n : ℕ}
      → σ.consumer ≢ resting
      → Read me σ.shm σ.consumer shm consumer
      → Alone me (record σ { shm = shm; consumer = consumer }) n τ
      → Alone me σ (suc n) τ

Alone-Reach :
    {me : ShmAudioBuffer} {start σ τ : System} {n : ℕ}
    → Reach me start σ
    → Alone me σ n τ
    → Reach me start τ
Alone-Reach r rests = r
Alone-Reach r (reads ne st rest) = Alone-Reach (later r (consume st)) rest

-- The counter is even, and where the read loaded it; the budget fits the ring.
abbrev Current : ShmAudioBuffer → Shm → Consumer → Type 0
Current me shm resting = Unit {0}
Current me shm (top o l fb) = (shm.hdr.seq % 2 ≡ 0) × (budget fb l ≤ me.cap)
Current me shm (got_seq o l fb s0) = (shm.hdr.seq ≡ s0) × (budget fb l ≤ me.cap)
Current me shm (got_tail o l fb s0 tail) = (shm.hdr.seq ≡ s0) × (budget fb l ≤ me.cap)
Current me shm (copying o l fb s0 p buf) = (shm.hdr.seq ≡ s0) × (budget fb l ≤ me.cap)
Current me shm (got_tail2 o l fb s0 p buf tail2) = (shm.hdr.seq ≡ s0) × (budget fb l ≤ me.cap)
Current me shm (checked p buf) = Unit {0}
Current me shm (delivered p buf) = Unit {0}

-- How many steps a read has left at most.
abbrev rank : Consumer → ℕ
rank resting = 0
rank (top o l fb) = o + 7
rank (got_seq o l fb s0) = o + 6
rank (got_tail o l fb s0 tail) = o + 5
rank (copying o l fb s0 p buf) = p.want - length buf + 4
rank (got_tail2 o l fb s0 p buf tail2) = 3
rank (checked p buf) = 2
rank (delivered p buf) = 1

Read-rank :
    {me : ShmAudioBuffer} {shm shm' : Shm} {c c' : Consumer} (stream : List ℕ)
    → Read me shm c shm' c'
    → c ≢ resting
    → length stream < u64_mod
    → ConsumerInv me shm stream c
    → RoundInv me shm stream c
    → Current me shm c
    → (rank c' < rank c) × Current me shm' c'
Read-rank stream (call o l) ne small k r cur = absurd (ne refl)
Read-rank stream (spin odd) ne small k r cur = absurd (omega (arith, cur))
Read-rank stream (load_seq even) ne small k r cur = (omega arith, (refl, cur.1))
Read-rank stream load_tail ne small k r cur = (omega arith, cur)
Read-rank {shm} stream (load_head {o} {l} {fb} {s0} {tail}) ne small k r cur =
    (omega (arith, plan_bounds fb o l tail shm.hdr.head), cur)
Read-rank stream (load_byte {b} {buf} lt e) ne small k r cur =
    (omega (arith, length-append buf (b ∷ [])), cur)
Read-rank stream (load_tail2 full) ne small k r cur = (omega arith, cur)
Read-rank stream (accept ok) ne small k r cur = (omega arith, tt)
Read-rank stream (refuse {o} {l} {fb} no_good) ne small k r cur =
    absurd (ground (arith, accepts o l fb small k r cur.1 cur.0))
Read-rank stream store_head ne small k r cur = (omega arith, tt)
Read-rank stream return ne small k r cur = (omega arith, tt)

-- A read that stands there can take a step.
abbrev pub CanRead : ShmAudioBuffer → Shm → Consumer → Type 0
CanRead me shm c = (shm' : Shm) × (c' : Consumer) × Read me shm c shm' c'

load_succeeds : (m : Memory) (i : ℕ) → i < m.size → read_volatile m i ≡ some (m.cell i)
unfolding read_volatile
load_succeeds m i lt = rw (lt→ltb i m.size lt) refl

module _ {me : ShmAudioBuffer} {shm : Shm} (stream : List ℕ) (v : IsValid me shm)
    (small : length stream < u64_mod) where
  can_copy :
      {o l fb s0 : ℕ} {p : Plan} {buf : List ℕ}
      → Copied me shm stream s0 p buf
      → Near me shm stream o l fb s0 p
      → Current me shm (copying o l fb s0 p buf)
      → CanRead me shm (copying o l fb s0 p buf)
  can_copy {p} {buf} c r cur = elim (dec_lt (length buf) p.want) [
    | yes lt ↦
        let inside : byte_index me (mask me p.head) p.want (length buf) < shm.payload.size = omega (
          arith,
          byte_index_lem v p.head p.want (length buf)
              (omega (arith, c.inside cur.0, r.1 cur.0 cur.1)) lt,
          mod-lt (p.head + length buf) (cap_pos v),
          v.fits,
        ) in
        (_, _, load_byte lt (load_succeeds shm.payload _ inside))
    | no all ↦ (_, _, load_tail2 (omega (arith, c.few)))
  ]

  can_read :
      (c : Consumer)
      → ConsumerInv me shm stream c
      → RoundInv me shm stream c
      → Current me shm c
      → (c ≡ resting) ⊎ CanRead me shm c
  can_read resting k r cur = inl refl
  can_read (top o l fb) k r cur = inr (_, _, load_seq cur.0)
  can_read (got_seq o l fb s0) k r cur = inr (_, _, load_tail)
  can_read (got_tail o l fb s0 tail) k r cur = inr (_, _, load_head)
  can_read (copying o l fb s0 p buf) k r cur = inr (can_copy k r cur)
  can_read (got_tail2 o l fb s0 p buf tail2) k r cur =
      inr (_, _, accept (accepts o l fb small k r cur.1 cur.0))
  can_read (checked p buf) k r cur = inr (_, _, store_head)
  can_read (delivered p buf) k r cur = inr (_, _, return)

module _ {me : ShmAudioBuffer} {shm : Shm} {stream : List ℕ} (v : IsValid me shm)
    (h : Holds me shm stream) (even : shm.hdr.seq % 2 ≡ 0) where
  known :
      {σ : System}
      → Reach me (at_rest shm stream) σ
      → Inv me σ × RoundInv me σ.shm σ.stream σ.consumer
  known r = (Reach-Inv (at_rest-Inv v h even) r, Reach-RoundInv (at_rest-Inv v h even) tt r)

  Alone-rank :
      {σ τ : System} {n : ℕ}
      → Reach me (at_rest shm stream) σ
      → Current me σ.shm σ.consumer
      → Alone me σ n τ
      → (n + rank τ.consumer ≤ rank σ.consumer) × Current me τ.shm τ.consumer
  Alone-rank r cur rests = (omega arith, cur)
  Alone-rank r cur (reads ne st rest) =
      let (inv, round) = known r in
      let (lt, cur') = Read-rank _ st ne inv.small inv.reading round cur in
      let (le, end) = Alone-rank (later r (consume st)) cur' rest in (omega (arith, lt, le), end)

  -- On a valid ring that holds a stream, with both sides at rest and `seq` even to begin with: in
  -- every state that pushes and reads reach in which a read is at the top of its loop, its budget
  -- in whole frames fits the ring and `seq` is even, a read that goes on alone takes at most as
  -- many steps as its window has bytes and seven more, and until it has returned it can take one,
  -- so that it never faults.
  pub read_alone_ends :
      {σ τ : System} {o l fb n : ℕ}
      → Reach me (at_rest shm stream) σ
      → σ.consumer ≡ top o l fb
      → σ.shm.hdr.seq % 2 ≡ 0
      → budget fb l ≤ me.cap
      → Alone me σ n τ
      → (n ≤ o + 7) × ((τ.consumer ≡ resting) ⊎ CanRead me τ.shm τ.consumer)
  read_alone_ends {σ} {τ} r e quiet le alone =
      let (few, cur) = Alone-rank r (subst (Current me σ.shm) (sym e) (quiet, le)) alone in
      let (inv, round) = known (Alone-Reach r alone) in
      (
        omega (arith, few, ap rank e),
        can_read _ inv.valid inv.small τ.consumer inv.reading round cur,
      )
