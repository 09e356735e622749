-- ===== src/Audio/Ring/Spin.antt =====
-- The loop of `read_quantum` where it does not end.
use lalah.Base.{
  ℕ, zero, suc, ◌-◌, ◌%◌, ◌+◌, ◌≤◌, ◌<◌, ◌≡◌, refl, List, some, arith, wrapping_sub, ne→==, eq→==,
  lt→leb,
}
use native.Mathlib.Nat.{mod-lt}
use lalah.Audio.Ring.{Shm, ShmAudioBuffer, Plan, plan, retry, read_pass, read_quantum}
use lalah.Audio.Ring.Index.{copy_out_lem}
use lalah.Audio.Ring.Stream.{IsValid, Holds, cap_pos, mask-IsValid}
use lalah.Audio.Ring.Window.{unit, budget, plan-head_of_le, plan_bounds}

-- A round that retries is retried for ever, since nothing else moves.
retry_forever :
    (me : ShmAudioBuffer) (shm : Shm) (out_len max_latency_bytes : ℕ)
    → read_pass me shm out_len max_latency_bytes ≡ some retry
    → (fuel : ℕ) → read_quantum fuel me shm out_len max_latency_bytes ≡ some retry
unfolding read_quantum
retry_forever me shm out_len max_latency_bytes e zero = refl
retry_forever me shm out_len max_latency_bytes e (suc fuel) =
    rw e (retry_forever me shm out_len max_latency_bytes e fuel)

-- While the sequence counter is odd, no number of rounds of `read_quantum` is enough.
read_quantum_odd :
    (me : ShmAudioBuffer) (shm : Shm) (out_len max_latency_bytes : ℕ)
    → shm.hdr.seq % 2 ≡ 1
    → (fuel : ℕ) → read_quantum fuel me shm out_len max_latency_bytes ≡ some retry
unfolding read_pass
read_quantum_odd me shm out_len max_latency_bytes odd =
    retry_forever me shm out_len max_latency_bytes (rw (eq→== (shm.hdr.seq % 2) 1 odd))

module _ {me : ShmAudioBuffer} {shm : Shm} {stream : List ℕ} (v : IsValid me shm)
    (h : Holds me shm stream) (even : shm.hdr.seq % 2 ≡ 0) (out_len max_latency_bytes : ℕ) where
  -- On a valid ring that holds a stream, with `seq` even and a window that fits the ring: a
  -- backlog larger than the ring but within the latency budget is read, refused by the recheck,
  -- and read again, so that no number of rounds is enough.
  pub read_quantum_overrun :
      out_len ≤ me.cap
      → shm.hdr.head + me.cap < shm.hdr.tail
      → shm.hdr.tail - shm.hdr.head ≤ budget shm.hdr.frame_bytes max_latency_bytes
      → (fuel : ℕ) → read_quantum fuel me shm out_len max_latency_bytes ≡ some retry
  unfolding read_pass
  read_quantum_overrun small over allowed = retry_forever me shm out_len max_latency_bytes (
      rw
        (
          ne→== (shm.hdr.seq % 2) 1 (omega arith),
          mask-IsValid v p.head,
          copy_out_lem me shm.payload (p.head % me.cap) p.want (mod-lt p.head (cap_pos v))
              (omega (arith, b)) v.fits,
          wrapped,
          lt→leb (shm.hdr.tail - p.head) me.cap (omega (arith, at)),
          eq→== shm.hdr.seq shm.hdr.seq refl,
        )
        refl)
    where
      p : Plan
      p = plan shm.hdr.frame_bytes out_len max_latency_bytes shm.hdr.tail shm.hdr.head

      b :
          (p.want % unit shm.hdr.frame_bytes ≡ 0)
          × (p.want ≤ out_len)
          × (p.head + p.want ≤ shm.hdr.tail)
      b = plan_bounds shm.hdr.frame_bytes out_len max_latency_bytes shm.hdr.tail shm.hdr.head

      at : p.head ≡ shm.hdr.head
      at =
          plan-head_of_le shm.hdr.frame_bytes out_len max_latency_bytes shm.hdr.tail shm.hdr.head
            (omega arith) allowed

      wrapped : wrapping_sub shm.hdr.tail p.head ≡ shm.hdr.tail - p.head
      wrapped = omega (arith, b, h.count, h.small)
