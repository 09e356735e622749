-- ===== src/Audio/Ring/Read.antt =====
-- `read_quantum` while no push is under way, and the stream.
use lalah.Base.{
  ℕ, suc, ◌+◌, ◌-◌, ◌%◌, ◌≤◌, ◌<◌, ◌≡◌, refl, sym, ap, ◌∙◌, List, ◌++◌, some, arith, ◌==◌, false,
  ◌⊎◌, length, get_or, take, drop, replicate, tabulate, length-take, length-drop, length-tabulate,
  get_or-take, get_or-drop, get_or-tabulate, list_ext, wrapping_sub, ne→==, eq→==, le→leb,
}
use native.Mathlib.Nat.{mod-lt, mod-add-mod}
use lalah.Memory.{Memory}
use lalah.Audio.Ring.{Shm, ShmAudioBuffer, Plan, plan, copy_out, done, read_quantum}
use lalah.Audio.Ring.Index.{copy_out_lem}
use lalah.Audio.Ring.Stream.{IsValid, Holds, Kept, cap_pos, mask-IsValid}
use lalah.Audio.Ring.Window.{budget, plan-head, plan_bounds}

-- `n` bytes of the stream from position `p` on.
abbrev pub slice : List ℕ → ℕ → ℕ → List ℕ
slice stream p n = take n (drop p stream)

-- Any bytes within the newest `cap` are read off the ring as the stream has them.
pub Kept-slice :
    (cap : ℕ) (m : Memory) (stream : List ℕ) (p n : ℕ)
    → Kept cap m stream
    → p + n ≤ length stream
    → length stream ≤ p + cap
    → tabulate (λ i. m.cell ((p % cap + i) % cap)) 0 n ≡ slice stream p n
Kept-slice cap m stream p n k le near =
    list_ext 0 (tabulate at 0 n) (slice stream p n)
      (omega (arith, length-tabulate at 0 n, length-take n (drop p stream), length-drop p stream))
      (λ i h. element i (omega (arith, length-tabulate at 0 n)))
  where
    at : ℕ → ℕ
    at i = m.cell ((p % cap + i) % cap)

    element : (i : ℕ) → i < n → get_or (tabulate at 0 n) i 0 ≡ get_or (slice stream p n) i 0
    element i h =
        get_or-tabulate 0 at 0 n i h
        ∙ ap m.cell (mod-add-mod p cap (0 + i) ∙ ap (λ t. (p + t) % cap) (omega arith))
        ∙ k (p + i) (omega arith) (omega arith)
        ∙ sym (get_or-drop 0 p stream i)
        ∙ sym (get_or-take 0 n (drop p stream) i h)

module _ {me : ShmAudioBuffer} {shm : Shm} {stream : List ℕ} (v : IsValid me shm)
    (h : Holds me shm stream) (even : shm.hdr.seq % 2 ≡ 0) (out_len max_latency_bytes : ℕ) where
  abbrev p : Plan
  p = plan shm.hdr.frame_bytes out_len max_latency_bytes shm.hdr.tail shm.hdr.head

  bounds :
      (p.head ≤ shm.hdr.tail)
      × (p.head + p.want ≤ shm.hdr.tail)
      × (p.want ≤ out_len)
      × (wrapping_sub shm.hdr.tail p.head ≡ shm.hdr.tail - p.head)
  bounds = omega (
    arith,
    h.count,
    h.small,
    plan-head shm.hdr.frame_bytes out_len max_latency_bytes shm.hdr.tail shm.hdr.head,
    plan_bounds shm.hdr.frame_bytes out_len max_latency_bytes shm.hdr.tail shm.hdr.head,
  )

  copied :
      p.want ≤ me.cap
      → copy_out me shm.payload (p.head % me.cap) p.want
        ≡ some (tabulate (λ i. shm.payload.cell ((p.head % me.cap + i) % me.cap)) 0 p.want)
  copied le =
      copy_out_lem me shm.payload (p.head % me.cap) p.want (mod-lt p.head (cap_pos v)) le v.fits

  not_odd : (shm.hdr.seq % 2 == 1) ≡ false
  not_odd = ne→== (shm.hdr.seq % 2) 1 (omega arith)

  near_enough :
      (budget shm.hdr.frame_bytes max_latency_bytes ≤ me.cap)
        ⊎ (shm.hdr.tail ≤ shm.hdr.head + me.cap)
      → shm.hdr.tail ≤ p.head + me.cap
  near_enough c =
      ground
        (arith, plan-head shm.hdr.frame_bytes out_len max_latency_bytes shm.hdr.tail shm.hdr.head)

  -- On a valid ring that holds a stream, with `seq` even: if the budget or the backlog fits the
  -- ring, the first round returns, with the planned slice of the stream, silence up to the
  -- caller's length, and `head` behind what was delivered.
  pub read_quantum_returns :
      (budget shm.hdr.frame_bytes max_latency_bytes ≤ me.cap)
        ⊎ (shm.hdr.tail ≤ shm.hdr.head + me.cap)
      → (fuel : ℕ)
      → read_quantum (suc fuel) me shm out_len max_latency_bytes
        ≡ some (
            done
              (record shm { hdr = record shm.hdr { head = p.head + p.want } })
              (slice stream p.head p.want ++ replicate (out_len - p.want) 0)
              p.want)
  unfolding read_quantum
  read_quantum_returns c fuel =
      rw
        (
          not_odd,
          mask-IsValid v p.head,
          copied (omega (arith, near_enough c, bounds)),
          eq→== shm.hdr.seq shm.hdr.seq refl,
          bounds.3,
          le→leb (shm.hdr.tail - p.head) me.cap (omega (arith, near_enough c)),
          Kept-slice me.cap shm.payload stream p.head p.want h.kept (omega (arith, bounds, h.count))
              (omega (arith, near_enough c, h.count)),
        )
        refl
