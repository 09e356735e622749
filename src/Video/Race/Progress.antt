-- ===== src/Video/Race/Progress.antt =====
-- A push and a read of a frame (packages/shared/src/lib.rs), each among the steps of the other: how many
-- steps a call takes, and that it can always take the next.
use lalah.Base.{
  ℕ, suc, ◌+◌, ◌-◌, ◌<◌, ◌≤◌, ◌≡◌, ◌≢◌, ◌⊎◌, inl, inr, refl, List, [], ◌∷◌, ◌++◌, some, arith,
  length, length-append, get_or, lt→ltb, Bool-cases,
}
use native.Mathlib.Decide.{dec_lt}
use lalah.Memory.{Memory, read_volatile}
use lalah.Video.Ring.{VideoShm, ShmVideoBuffer, slot_offset, tear_safe}
use lalah.Video.Ring.Geometry.{IsCut}
use lalah.Video.Ring.Slots.{slot_fits}
use lalah.Video.Ring.Stream.{HoldsFrames}
use lalah.Video.Race.{
  FrameProducer, idle, writing, FrameConsumer, resting, copying, delivered, PushFrame, skip, enter,
  store, publish, ReadFrame, nothing_yet, load_count, load_byte, accept, refuse, return,
  FrameSystem, produce, consume, FrameReach, later,
}
use lalah.Video.Race.Invariant.{CopiedFrame, FrameConsumerInv}
use lalah.Video.Race.Safety.{
  both_rest, both_rest-FrameInv, FrameReach-FrameInv, writing_inv, frame_stores_succeed,
}

-- Steps of both sides in any order, `n` of which are the push's, up to its end.
pub data DuringPush (me : ShmVideoBuffer) : FrameSystem → ℕ → FrameSystem → Type 0 where
  rests : {σ : FrameSystem} → DuringPush me σ 0 σ
  pushes :
      {σ τ : FrameSystem} {shm : VideoShm} {producer : FrameProducer} {new : List (List ℕ)} {n : ℕ}
      → σ.producer ≢ idle
      → PushFrame me σ.shm σ.producer shm producer new
      → DuringPush me (record σ { shm = shm; producer = producer; frames = σ.frames ++ new }) n τ
      → DuringPush me σ (suc n) τ
  reads :
      {σ τ : FrameSystem} {consumer : FrameConsumer} {n : ℕ}
      → ReadFrame me σ.shm σ.consumer consumer
      → DuringPush me (record σ { consumer = consumer }) n τ
      → DuringPush me σ n τ

-- Steps of both sides in any order, `n` of which are the read's, up to its end.
pub data DuringRead (me : ShmVideoBuffer) : FrameSystem → ℕ → FrameSystem → Type 0 where
  read_rests : {σ : FrameSystem} → DuringRead me σ 0 σ
  others_push :
      {σ τ : FrameSystem} {shm : VideoShm} {producer : FrameProducer} {new : List (List ℕ)} {n : ℕ}
      → PushFrame me σ.shm σ.producer shm producer new
      → DuringRead me (record σ { shm = shm; producer = producer; frames = σ.frames ++ new }) n τ
      → DuringRead me σ n τ
  read_goes_on :
      {σ τ : FrameSystem} {consumer : FrameConsumer} {n : ℕ}
      → σ.consumer ≢ resting
      → ReadFrame me σ.shm σ.consumer consumer
      → DuringRead me (record σ { consumer = consumer }) n τ
      → DuringRead me σ (suc n) τ

-- The steps that a push still has to take.
abbrev pub push_left : ShmVideoBuffer → FrameProducer → ℕ
push_left me idle = 0
push_left me (writing frame seq i) = me.frame_size - i + 1

-- How many steps a read has left at most.
abbrev pub read_left : FrameConsumer → ℕ
read_left resting = 0
read_left (copying s0 len buf) = len - length buf + 2
read_left (delivered newest len buf) = 1

PushFrame-push_left :
    {me : ShmVideoBuffer} {shm shm' : VideoShm} {new : List (List ℕ)} {p p' : FrameProducer}
    → PushFrame me shm p shm' p' new
    → p ≢ idle
    → push_left me p' + 1 ≡ push_left me p
PushFrame-push_left (skip none) ne = absurd (ne refl)
PushFrame-push_left (enter src some_slot q) ne = absurd (ne refl)
PushFrame-push_left (store lt e h) ne = omega arith
PushFrame-push_left (publish e) ne = omega arith

ReadFrame-read_left :
    {me : ShmVideoBuffer} {shm : VideoShm} {c c' : FrameConsumer}
    → ReadFrame me shm c c'
    → c ≢ resting
    → read_left c' < read_left c
ReadFrame-read_left (nothing_yet e) ne = absurd (ne refl)
ReadFrame-read_left (load_count out_len set some_frame) ne = absurd (ne refl)
ReadFrame-read_left (load_byte {b} {buf} lt e) ne = omega (arith, length-append buf (b ∷ []))
ReadFrame-read_left (accept full ok) ne = omega arith
ReadFrame-read_left (refuse full no_good) ne = omega arith
ReadFrame-read_left return ne = omega arith

DuringPush-push_left :
    {me : ShmVideoBuffer} {σ τ : FrameSystem} {n : ℕ}
    → DuringPush me σ n τ
    → n + push_left me τ.producer ≡ push_left me σ.producer
DuringPush-push_left rests = omega arith
DuringPush-push_left (pushes ne st rest) =
    omega (arith, PushFrame-push_left st ne, DuringPush-push_left rest)
DuringPush-push_left (reads st rest) = DuringPush-push_left rest

DuringRead-read_left :
    {me : ShmVideoBuffer} {σ τ : FrameSystem} {n : ℕ}
    → DuringRead me σ n τ
    → n + read_left τ.consumer ≤ read_left σ.consumer
DuringRead-read_left read_rests = omega arith
DuringRead-read_left (others_push st rest) = DuringRead-read_left rest
DuringRead-read_left (read_goes_on ne st rest) =
    omega (arith, ReadFrame-read_left st ne, DuringRead-read_left rest)

DuringPush-FrameReach :
    {me : ShmVideoBuffer} {start σ τ : FrameSystem} {n : ℕ}
    → FrameReach me start σ
    → DuringPush me σ n τ
    → FrameReach me start τ
DuringPush-FrameReach r rests = r
DuringPush-FrameReach r (pushes ne st rest) = DuringPush-FrameReach (later r (produce st)) rest
DuringPush-FrameReach r (reads st rest) = DuringPush-FrameReach (later r (consume st)) rest

DuringRead-FrameReach :
    {me : ShmVideoBuffer} {start σ τ : FrameSystem} {n : ℕ}
    → FrameReach me start σ
    → DuringRead me σ n τ
    → FrameReach me start τ
DuringRead-FrameReach r read_rests = r
DuringRead-FrameReach r (others_push st rest) = DuringRead-FrameReach (later r (produce st)) rest
DuringRead-FrameReach r (read_goes_on ne st rest) =
    DuringRead-FrameReach (later r (consume st)) rest

-- Calls that stand there can take a step.
abbrev pub CanPushFrame : ShmVideoBuffer → VideoShm → FrameProducer → Type 0
CanPushFrame me shm p =
    (shm' : VideoShm) × (p' : FrameProducer) × (new : List (List ℕ)) × PushFrame me shm p shm' p'
      new

abbrev pub CanReadFrame : ShmVideoBuffer → VideoShm → FrameConsumer → Type 0
CanReadFrame me shm c = (c' : FrameConsumer) × ReadFrame me shm c c'

load_succeeds : (m : Memory) (i : ℕ) → i < m.size → read_volatile m i ≡ some (m.cell i)
unfolding read_volatile
load_succeeds m i lt = rw (lt→ltb i m.size lt) refl

module _ {me : ShmVideoBuffer} {shm : VideoShm} (cut : IsCut me shm) where
  can_copy :
      (frames : List (List ℕ)) {s0 len : ℕ} {buf : List ℕ}
      → CopiedFrame me frames s0 len buf
      → CanReadFrame me shm (copying s0 len buf)
  can_copy frames {s0} {len} {buf} c = elim (dec_lt (length buf) len) [
    | yes lt ↦
        let at : ℕ = slot_offset me (s0 - 1) + length buf in
        let inside : at < shm.payload.size = omega (arith, slot_fits cut (s0 - 1), c.short) in
        (_, load_byte lt (load_succeeds shm.payload at inside))
    | no all ↦
        let full : length buf ≡ len = omega (arith, c.few) in
        elim (Bool-cases (tear_safe me s0 shm.hdr.frame_seq)) [
          | inl ok ↦ (_, accept full ok)
          | inr lapped ↦ (_, refuse full lapped)
        ]
  ]

  can_read :
      (frames : List (List ℕ)) (c : FrameConsumer)
      → FrameConsumerInv me frames c
      → (c ≡ resting) ⊎ CanReadFrame me shm c
  can_read frames resting k = inl refl
  can_read frames (copying s0 len buf) k = inr (can_copy frames k)
  can_read frames (delivered newest len buf) k = inr (_, return)

module _ {me : ShmVideoBuffer} {shm : VideoShm} {frames : List (List ℕ)} (c : IsCut me shm)
    (h : HoldsFrames me shm frames)
    (sized : (f : ℕ) → f < length frames → length (get_or frames f []) ≡ me.frame_size) where
  can_push :
      (σ : FrameSystem)
      → FrameReach me (both_rest shm frames) σ
      → (p : FrameProducer) → σ.producer ≡ p
      → (p ≡ idle) ⊎ CanPushFrame me σ.shm p
  can_push σ r idle e = inl refl
  can_push σ r (writing frame seq i) e = elim (dec_lt i me.frame_size) [
    | yes lt ↦
        let (m, stored) = frame_stores_succeed c h sized r e lt in
        inr (_, _, _, store {shm' = record σ.shm { payload = m }} lt stored refl)
    | no end ↦
        let inv = FrameReach-FrameInv (both_rest-FrameInv c h sized) r in
        let w = writing_inv me σ.shm σ.frames e inv.ring.pushing in
        inr (_, _, _, publish (omega (arith, w.so_far)))
  ]

  -- On a handle whose slots are cut out of the sub-region, with both sides at rest over a ring
  -- that holds frames of the handle's size, and as long as fewer than 2^64 frames are pushed in
  -- all: in every state that pushes and reads reach, a push under way takes, however the read's
  -- steps fall between, at most as many steps as are left of it, one for each byte it has not
  -- stored and one more, and until it has ended it can take one, so that it never faults and
  -- never waits.
  pub frame_push_ends :
      {σ τ : FrameSystem} {n : ℕ}
      → FrameReach me (both_rest shm frames) σ
      → DuringPush me σ n τ
      → (n ≤ push_left me σ.producer) × ((τ.producer ≡ idle) ⊎ CanPushFrame me τ.shm τ.producer)
  frame_push_ends {σ} {τ} r during = (
    omega (arith, DuringPush-push_left during),
    can_push τ (DuringPush-FrameReach r during) τ.producer refl,
  )

  -- On a handle whose slots are cut out of the sub-region, with both sides at rest over a ring
  -- that holds frames of the handle's size, and as long as fewer than 2^64 frames are pushed in
  -- all: in every state that pushes and reads reach, a read under way takes, however many steps
  -- of pushes fall between, at most one step for each byte it has not copied and two more, and
  -- until it has returned it can take one, so that it never faults and never waits.
  pub frame_read_ends :
      {σ τ : FrameSystem} {n : ℕ}
      → FrameReach me (both_rest shm frames) σ
      → DuringRead me σ n τ
      → (n ≤ read_left σ.consumer) × ((τ.consumer ≡ resting) ⊎ CanReadFrame me τ.shm τ.consumer)
  frame_read_ends {σ} {τ} r during =
      let inv =
        FrameReach-FrameInv (both_rest-FrameInv c h sized) (DuringRead-FrameReach r during) in
      (
        omega (arith, DuringRead-read_left during),
        can_read inv.ring.cut τ.frames τ.consumer inv.reading,
      )
