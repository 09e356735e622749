-- ===== src/Guest/Wasapi/Capture.antt =====
-- The capture loop (wasapi.rs) over the audio ring.
use lalah.Base.{
  ℕ, ◌⊎◌, ◌+◌, ◌*◌, ◌%◌, ◌<◌, ◌≡◌, refl, sym, ap, subst, ◌∙◌, true, false, some, List, [], ◌∷◌,
  ◌++◌, arith, length, length-append, length-tabulate, length-replicate, ◌==◌, if◌then◌else◌,
  Bool-cases, inl, inr, eq→==, ne→==, u64_mod,
}
use native.Mathlib.Decide.{ℕ_discrete}
use native.Mathlib.Nat.{mul-mod_left}
use mathlib.Core.List.{append-nil, append_assoc}
use lalah.Audio.Ring.{Shm, ShmAudioBuffer, newest, push_overwrite}
use lalah.Audio.Ring.Stream.{IsValid, Holds}
use lalah.Audio.Ring.Push.{push_overwrite-Pushed, Pushed-IsValid}
use lalah.Audio.Ring.Window.{unit}
use lalah.Audio.Ring.Frames.{IsAligned, Pushed-IsAligned, pushed_words}
use lalah.Guest.Wasapi.{
  Packet, packet_bytes, Ending, empty, fails, Wake, signalled, other, drain, Stop, clean, failed,
  waiting, capture_loop,
}

-- What a queue of packets adds to the stream.
abbrev pub captured : ShmAudioBuffer → ℕ → List Packet → List ℕ
captured me block_align [] = []
captured me block_align (p ∷ ps) =
    if p.frames == 0
    then []
    else newest me (packet_bytes block_align p) ++ captured me block_align ps

-- How the draining of a queue ends: a packet without frames ends it before what stands behind.
abbrev pub ending_of : List Packet → Ending → Ending
ending_of [] end = end
ending_of (p ∷ ps) end = if p.frames == 0 then empty else ending_of ps end

-- A region in use by the guest: valid, aligned to the guest's frames, holding the stream.
pub record IsCapturing (me : ShmAudioBuffer) (block_align : ℕ) (shm : Shm) (stream : List ℕ)
    : Type 0 where
  pub valid : IsValid me shm
  pub holds : Holds me shm stream
  pub aligned : IsAligned shm
  pub same_frame : unit shm.hdr.frame_bytes ≡ block_align
  pub whole : me.cap % block_align ≡ 0

packet_whole :
    (block_align : ℕ) (p : Packet) → length (packet_bytes block_align p) % block_align ≡ 0
packet_whole block_align p = elim (Bool-cases p.silent) [
  | inl t ↦ rw t (
      ap (λ k. k % block_align) (length-replicate (p.frames * block_align) 0)
      ∙ mul-mod_left p.frames block_align)
  | inr f ↦ rw f (
      ap (λ k. k % block_align) (length-tabulate p.cell 0 (p.frames * block_align))
      ∙ mul-mod_left p.frames block_align)
]

-- One packet is pushed.
push_packet :
    {me : ShmAudioBuffer} {block_align : ℕ} {shm : Shm} {stream : List ℕ} (p : Packet)
    → IsCapturing me block_align shm stream
    → length stream + length (newest me (packet_bytes block_align p)) < u64_mod
    → (shm' : Shm) × (push_overwrite me shm (packet_bytes block_align p) ≡ some shm')
      × IsCapturing me block_align shm' (stream ++ newest me (packet_bytes block_align p))
push_packet {me} {block_align} {shm} {stream} p c room =
    let (shm', pushed) = push_overwrite-Pushed c.valid c.holds (packet_bytes block_align p) room in
    let words =
      pushed_words shm.hdr shm'.hdr (length (newest me (packet_bytes block_align p)))
        (omega (arith, c.holds.count)) pushed.header in
    (
      shm',
      pushed.returns,
      record {
        valid = Pushed-IsValid c.valid pushed;
        holds = pushed.holds;
        aligned =
            Pushed-IsAligned c.aligned (rw c.same_frame (packet_whole block_align p))
              (rw c.same_frame c.whole) (omega (arith, c.holds.count)) pushed;
        same_frame = rw words.2 c.same_frame;
        whole = c.whole;
      },
    )

module _ (me : ShmAudioBuffer) (block_align : ℕ) (p : Packet) (ps : List Packet)
    (some_frames : (p.frames == 0) ≡ false) where
  captured_more :
      captured me block_align (p ∷ ps)
      ≡ newest me (packet_bytes block_align p) ++ captured me block_align ps
  captured_more = rw some_frames refl

  drain_more :
      (shm mid shm' : Shm) (end : Ending)
      → push_overwrite me shm (packet_bytes block_align p) ≡ some mid
      → drain me block_align mid ps end ≡ some (shm', ending_of ps end)
      → drain me block_align shm (p ∷ ps) end ≡ some (shm', ending_of (p ∷ ps) end)
  unfolding drain
  drain_more shm mid shm' end e e' = rw (some_frames, e, e') refl

  IsCapturing-more :
      (shm : Shm) (stream : List ℕ)
      → IsCapturing me block_align shm
          ((stream ++ newest me (packet_bytes block_align p)) ++ captured me block_align ps)
      → IsCapturing me block_align shm (stream ++ captured me block_align (p ∷ ps))
  IsCapturing-more shm stream c =
      subst (IsCapturing me block_align shm)
        (append_assoc stream (newest me (packet_bytes block_align p)) (captured me block_align ps)
          ∙ ap (λ t. stream ++ t) (sym captured_more))
        c

-- Draining never faults: the packets before the first empty one are appended in order, silent ones as
-- zeroes, each cut to the newest bytes that the ring can hold, and no frame is split.
pub drain-IsCapturing :
    (ps : List Packet) (end : Ending) {me : ShmAudioBuffer} {block_align : ℕ} {shm : Shm}
    {stream : List ℕ}
    → IsCapturing me block_align shm stream
    → length stream + length (captured me block_align ps) < u64_mod
    → (shm' : Shm) × (drain me block_align shm ps end ≡ some (shm', ending_of ps end))
      × IsCapturing me block_align shm' (stream ++ captured me block_align ps)
unfolding drain
drain-IsCapturing [] end {shm} c room = (shm, refl, rw append-nil c)
drain-IsCapturing (p ∷ ps) end {me} {block_align} {shm} {stream} c room =
    elim (ℕ_discrete p.frames 0) [
      | yes e ↦
          let t : (p.frames == 0) ≡ true = eq→== p.frames 0 e in
          (shm, rw t refl, rw (t, append-nil) c)
      | no ne ↦
          let t : (p.frames == 0) ≡ false = ne→== p.frames 0 ne in
          let new : List ℕ = newest me (packet_bytes block_align p) in
          let sum : length (captured me block_align (p ∷ ps))
              ≡ length new + length (captured me block_align ps) =
            ap length (captured_more me block_align p ps t)
            ∙ length-append new (captured me block_align ps) in
          let (mid, e, c') = push_packet p c (omega (arith, sum)) in
          let (shm', e', c'') =
            drain-IsCapturing ps end c' (omega (arith, sum, length-append stream new)) in
          (
            shm',
            drain_more me block_align p ps t shm mid shm' end e e',
            IsCapturing-more me block_align p ps t shm' stream c'',
          )
    ]

-- What stands behind a queue: the next wakes, if the draining ended for want of packets.
abbrev pub behind {ℓ} : {A : Type ℓ} → Ending → (stop : ℕ → A) → A → A
behind empty stop rest = rest
behind (fails hresult) stop rest = stop hresult

-- What a run of the loop adds to the stream, and how it ends.
abbrev pub captured_all : ShmAudioBuffer → ℕ → List Wake → List ℕ
captured_all me block_align [] = []
captured_all me block_align (other ∷ ws) = []
captured_all me block_align (signalled ps end ∷ ws) =
    captured me block_align ps
    ++ behind (ending_of ps end) (λ _. []) (captured_all me block_align ws)

abbrev pub stop_of : List Wake → Stop
stop_of [] = waiting
stop_of (other ∷ ws) = clean
stop_of (signalled ps end ∷ ws) = behind (ending_of ps end) failed (stop_of ws)

pub Ending-cases : (end : Ending) → (end ≡ empty) ⊎ ((hresult : ℕ) × (end ≡ fails hresult))
Ending-cases empty = inl refl
Ending-cases (fails hresult) = inr (hresult, refl)

-- On a valid, frame-aligned ring of the guest's frame size, as long as the stream stays shorter
-- than 2^64 bytes, the capture loop never faults. It waits again behind a queue that empties or
-- has come to a packet without frames, and stops at the first wait that fails (cleanly) or the
-- first call that fails (with its error). The stream has gained the packets until then, in order,
-- silent ones as zeroes, of each the newest bytes that the ring can hold, and no frame is split.
pub capture_loop-IsCapturing :
    (ws : List Wake) {me : ShmAudioBuffer} {block_align : ℕ} {shm : Shm} {stream : List ℕ}
    → IsCapturing me block_align shm stream
    → length stream + length (captured_all me block_align ws) < u64_mod
    → (shm' : Shm) × (capture_loop me block_align shm ws ≡ some (shm', stop_of ws))
      × IsCapturing me block_align shm' (stream ++ captured_all me block_align ws)
unfolding capture_loop
capture_loop-IsCapturing [] {shm} c room = (shm, refl, rw append-nil c)
capture_loop-IsCapturing (other ∷ ws) {shm} c room = (shm, refl, rw append-nil c)
capture_loop-IsCapturing (signalled ps end ∷ ws) {me} {block_align} {shm} {stream} c room =
    let new : List ℕ = captured me block_align ps in
    let rest : List ℕ = captured_all me block_align ws in
    let all = length-append new (behind (ending_of ps end) (λ _. []) rest) in
    let (mid, e, c') = drain-IsCapturing ps end c (omega (arith, room, all)) in
    elim (Ending-cases (ending_of ps end)) [
      | inl t ↦
          let room' = ap (λ k. length (behind k (λ _. []) rest)) t in
          let (shm', e', c'') =
            capture_loop-IsCapturing ws c'
              (omega (arith, room, all, room', length-append stream new)) in
          (
            shm',
            rw (e, t, e') refl,
            rw t (subst (IsCapturing me block_align shm') (append_assoc stream new rest) c''),
          )
      | inr (hresult, t) ↦ (mid, rw (e, t) refl, rw (t, append-nil) c')
    ]
