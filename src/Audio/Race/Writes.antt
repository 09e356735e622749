-- ===== src/Audio/Race/Writes.antt =====
-- A push among the steps of a read (packages/shared/src/lib.rs): how many steps it takes, and that it can
-- always take the next.
use lalah.Base.{
  ℕ, suc, ◌+◌, ◌-◌, ◌%◌, ◌≤◌, ◌≡◌, ◌≢◌, ◌⊎◌, inl, inr, refl, List, ◌++◌, arith, length,
}
use native.Mathlib.Decide.{dec_lt}
use lalah.Audio.Ring.{Shm, ShmAudioBuffer}
use lalah.Audio.Ring.Stream.{IsValid, Holds}
use lalah.Audio.Race.{
  System, Producer, idle, writing, closing, Consumer, Push, enter, store, publish, leave, Read,
  produce, consume, Reach, later,
}
use lalah.Audio.Race.Safety.{at_rest, stores_succeed, Reach-Inv, at_rest-Inv, writing_inv}

-- Steps of both sides in any order, `n` of which are the push's, up to its end.
pub data Interleaved (me : ShmAudioBuffer) : System → ℕ → System → Type 0 where
  rests : {σ : System} → Interleaved me σ 0 σ
  pushes :
      {σ τ : System} {shm : Shm} {producer : Producer} {new : List ℕ} {n : ℕ}
      → σ.producer ≢ idle
      → Push me σ.shm σ.producer shm producer new
      → Interleaved me (record σ { shm = shm; producer = producer; stream = σ.stream ++ new }) n τ
      → Interleaved me σ (suc n) τ
  reads :
      {σ τ : System} {shm : Shm} {consumer : Consumer} {n : ℕ}
      → Read me σ.shm σ.consumer shm consumer
      → Interleaved me (record σ { shm = shm; consumer = consumer }) n τ
      → Interleaved me σ n τ

-- The steps that a push still has to take.
abbrev pub steps_left : Producer → ℕ
steps_left idle = 0
steps_left (writing src tail s i) = length src - i + 2
steps_left (closing s) = 1

Push-steps_left :
    {me : ShmAudioBuffer} {shm shm' : Shm} {new : List ℕ} {p p' : Producer}
    → Push me shm p shm' p' new
    → p ≢ idle
    → steps_left p' + 1 ≡ steps_left p
Push-steps_left (enter src pos r q) ne = absurd (ne refl)
Push-steps_left (store lt e h) ne = omega arith
Push-steps_left (publish e) ne = omega arith
Push-steps_left leave ne = refl

Interleaved-steps_left :
    {me : ShmAudioBuffer} {σ τ : System} {n : ℕ}
    → Interleaved me σ n τ
    → n + steps_left τ.producer ≡ steps_left σ.producer
Interleaved-steps_left rests = omega arith
Interleaved-steps_left (pushes ne st rest) =
    omega (arith, Push-steps_left st ne, Interleaved-steps_left rest)
Interleaved-steps_left (reads st rest) = Interleaved-steps_left rest

Interleaved-Reach :
    {me : ShmAudioBuffer} {start σ τ : System} {n : ℕ}
    → Reach me start σ
    → Interleaved me σ n τ
    → Reach me start τ
Interleaved-Reach r rests = r
Interleaved-Reach r (pushes ne st rest) = Interleaved-Reach (later r (produce st)) rest
Interleaved-Reach r (reads st rest) = Interleaved-Reach (later r (consume st)) rest

-- A push that stands there can take a step.
abbrev pub CanPush : ShmAudioBuffer → Shm → Producer → Type 0
CanPush me shm p = (shm' : Shm) × (p' : Producer) × (new : List ℕ) × Push me shm p shm' p' new

module _ {me : ShmAudioBuffer} {shm : Shm} {stream : List ℕ} (v : IsValid me shm)
    (h : Holds me shm stream) (even : shm.hdr.seq % 2 ≡ 0) where
  can_push :
      (σ : System)
      → Reach me (at_rest shm stream) σ
      → (p : Producer) → σ.producer ≡ p
      → (p ≡ idle) ⊎ CanPush me σ.shm p
  can_push σ r idle e = inl refl
  can_push σ r (closing s) e = inr (_, _, _, leave)
  can_push σ r (writing src tail s i) e = elim (dec_lt i (length src)) [
    | yes lt ↦
        let (m, stored) = stores_succeed v h even r e lt in
        inr (_, _, _, store {shm' = record σ.shm { payload = m }} lt stored refl)
    | no end ↦
        let inv = Reach-Inv (at_rest-Inv v h even) r in
        let w = writing_inv me σ.shm σ.stream e inv.pushing in
        inr (_, _, _, publish (omega (arith, w.so_far)))
  ]

  -- On a valid ring that holds a stream, with both sides at rest and `seq` even to begin with: in
  -- every state that pushes and reads reach, a push under way takes, however the read's steps
  -- fall between, at most as many steps as are left of it, one for each byte it has not stored
  -- and two more, and until it has ended it can take one, so that it never faults and never
  -- waits.
  pub push_ends :
      {σ τ : System} {n : ℕ}
      → Reach me (at_rest shm stream) σ
      → Interleaved me σ n τ
      → (n ≤ steps_left σ.producer) × ((τ.producer ≡ idle) ⊎ CanPush me τ.shm τ.producer)
  push_ends {σ} {τ} r among = (
    omega (arith, Interleaved-steps_left among),
    can_push τ (Interleaved-Reach r among) τ.producer refl,
  )
