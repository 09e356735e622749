-- ===== src/Audio/Ring/Roundtrip.antt =====
-- A push into a drained ring, then a read.
use lalah.Base.{
  ℕ, ◌+◌, ◌-◌, ◌*◌, ◌/◌, ◌%◌, ◌≤◌, ◌<◌, ◌≡◌, refl, sym, ap, ap₂, ◌∙◌, List, [], ◌∷◌, ◌++◌, Option,
  some, arith, inr, min, length, take, drop, replicate, u64_mod,
}
use native.Mathlib.Nat.{div-mul_cancel, dvd_of_mod-eq-zero}
use lalah.Audio.Header.{ShmHeader}
use lalah.Audio.Ring.{
  Shm, ShmAudioBuffer, Plan, plan, newest, push_overwrite, Pass, done, read_quantum,
}
use lalah.Audio.Ring.Stream.{IsValid, Holds}
use lalah.Audio.Ring.Push.{Pushed, pushed_header, push_overwrite-Pushed, Pushed-IsValid}
use lalah.Audio.Ring.Window.{unit, budget, plan-head_of_le, plan-want}
use lalah.Audio.Ring.Read.{slice, read_quantum_returns}
use lalah.Audio.Ring.Frames.{pushed_words}

take-length {ℓ} : {A : Type ℓ} (xs : List A) → take (length xs) xs ≡ xs
take-length [] = refl
take-length (x ∷ xs) = ap (λ t. x ∷ t) (take-length xs)

drop-append {ℓ} : {A : Type ℓ} (xs ys : List A) → drop (length xs) (xs ++ ys) ≡ ys
drop-append [] ys = refl
drop-append (x ∷ xs) ys = drop-append xs ys

seq_parity : (h : ShmHeader) (n : ℕ) → h.seq % 2 ≡ 0 → (pushed_header h n).seq % 2 ≡ 0
seq_parity h n e = ground arith

-- The plan of a reader that has `n` bytes before it, a whole number of frames, and room for them.
plan_all :
    (frame_bytes out_len max_latency_bytes t n : ℕ)
    → n % unit frame_bytes ≡ 0
    → n ≤ out_len
    → n ≤ budget frame_bytes max_latency_bytes
    → plan frame_bytes out_len max_latency_bytes (t + n) t ≡ record { head = t; want = n }
plan_all frame_bytes out_len max_latency_bytes t n whole fits allowed =
    let p : Plan = plan frame_bytes out_len max_latency_bytes (t + n) t in
    let at : p.head ≡ t =
      plan-head_of_le frame_bytes out_len max_latency_bytes (t + n) t (omega arith) (omega arith) in
    let size : min out_len (t + n - p.head) ≡ n = omega (arith, at) in
    let want : p.want ≡ n =
      plan-want frame_bytes out_len max_latency_bytes (t + n) t
      ∙ ap (λ k. k / unit frame_bytes * unit frame_bytes) size
      ∙ div-mul_cancel (unit frame_bytes) (dvd_of_mod-eq-zero (unit frame_bytes) whole) in
    λ i. record { head = at i; want = want i }

module _ {me : ShmAudioBuffer} {shm : Shm} {stream : List ℕ} (v : IsValid me shm)
    (h : Holds me shm stream) (even : shm.hdr.seq % 2 ≡ 0) (drained : shm.hdr.head ≡ shm.hdr.tail)
    (src : List ℕ) (out_len max_latency_bytes : ℕ) where
  -- What the read returns under the plan `q`.
  abbrev outcome : Shm → Plan → Option Pass
  outcome shm' q = some (
      done (record shm' { hdr = record shm'.hdr { head = q.head + q.want } })
        (slice (stream ++ newest me src) q.head q.want ++ replicate (out_len - q.want) 0) q.want)

  newest_all : length src ≤ me.cap → newest me src ≡ src
  newest_all fits = ground arith

  plan_after :
      {shm' : Shm}
      → length src ≤ me.cap
      → length stream + length src < u64_mod
      → length src % unit shm.hdr.frame_bytes ≡ 0
      → length src ≤ out_len
      → length src ≤ budget shm.hdr.frame_bytes max_latency_bytes
      → Pushed me shm stream src shm'
      → (shm'.hdr.head ≡ length stream)
        × (shm'.hdr.tail ≡ length stream + length src)
        × (plan shm'.hdr.frame_bytes out_len max_latency_bytes shm'.hdr.tail shm'.hdr.head
            ≡ record { head = length stream; want = length src })
  plan_after {shm'} fits room whole window allowed p =
      let same : length (newest me src) ≡ length src = ap length (newest_all fits) in
      let (t, q, f) =
        pushed_words shm.hdr shm'.hdr (length (newest me src)) (omega (arith, same, h.count))
          p.header in
      let hd : shm'.hdr.head ≡ length stream = q ∙ drained ∙ h.count in
      let tl : shm'.hdr.tail ≡ length stream + length src = t ∙ ap₂ ◌+◌ h.count same in
      (
        hd,
        tl,
        rw (hd, tl, f)
            (plan_all shm.hdr.frame_bytes out_len max_latency_bytes (length stream) (length src)
              whole window allowed),
      )

  outcome_after :
      (shm' : Shm)
      → length src ≤ me.cap
      → shm'.hdr.tail ≡ length stream + length src
      → outcome shm' (record { head = length stream; want = length src })
        ≡ some (
            done
              (record shm' { hdr = record shm'.hdr { head = shm'.hdr.tail } })
              (src ++ replicate (out_len - length src) 0)
              (length src))
  outcome_after shm' fits tl =
      rw (newest_all fits, drop-append stream src, take-length src)
        (ap
          (λ (k : ℕ). some (
            done (record shm' { hdr = record shm'.hdr { head = k } })
              (src ++ replicate (out_len - length src) 0) (length src)))
          (sym tl))

  -- Bytes pushed into a drained ring, whole frames that fit the ring, the window and the budget,
  -- come out of the next read as they were, with silence behind them, and the ring is drained
  -- again. The ring is valid and at rest, and the stream stays shorter than 2^64 bytes.
  read-push :
      length src ≤ me.cap
      → length stream + length src < u64_mod
      → length src % unit shm.hdr.frame_bytes ≡ 0
      → length src ≤ out_len
      → length src ≤ budget shm.hdr.frame_bytes max_latency_bytes
      → (shm' : Shm) × (push_overwrite me shm src ≡ some shm')
        × (read_quantum 1 me shm' out_len max_latency_bytes
            ≡ some (
                done
                  (record shm' { hdr = record shm'.hdr { head = shm'.hdr.tail } })
                  (src ++ replicate (out_len - length src) 0)
                  (length src)))
  read-push fits room whole window allowed =
      let same : length (newest me src) ≡ length src = ap length (newest_all fits) in
      let (shm', p) = push_overwrite-Pushed v h src (omega (arith, same)) in
      let (hd, tl, pl) = plan_after fits room whole window allowed p in
      (
        shm',
        p.returns,
        read_quantum_returns (Pushed-IsValid v p) p.holds
              (rw p.header (seq_parity shm.hdr (length (newest me src)) even)) out_len
              max_latency_bytes (inr (omega (arith, hd, tl))) 0
            ∙ ap (outcome shm') pl
            ∙ outcome_after shm' fits tl,
      )
