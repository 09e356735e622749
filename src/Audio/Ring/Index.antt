-- ===== src/Audio/Ring/Index.antt =====
-- Ring indices: the mask, and the two-piece copies of `push_overwrite` and `read_quantum`.
use lalah.Base.{
  ℕ, ◌+◌, ◌-◌, ◌%◌, ◌^◌, ◌≤◌, ◌<◌, ◌≡◌, refl, sym, ap, ap₂, ◌∙◌, List, ◌++◌, some, arith, ltb, leb,
  if◌then◌else◌, length, get_or, take, drop, tabulate, length-take, length-drop, get_or-take,
  get_or-drop, tabulate_congr, tabulate-append, le→leb, lt→leb,
}
use native.Mathlib.Nat.{mod-eq_of_lt}
use native.Mathlib.Decide.{dec_lt, dec_le}
use lalah.Base.Rounds.{wrap_index}
use lalah.Base.Bits.{bit_and_mask}
use lalah.Memory.{Memory}
use lalah.Memory.Copy.{overlay, volatile_copy_to_lem, volatile_copy_from_lem}
use lalah.Audio.Ring.{ShmAudioBuffer, mask, copy_in, copy_out}

pub mask_lem : (me : ShmAudioBuffer) (k pos : ℕ) → me.cap ≡ 2 ^ k → mask me pos ≡ pos % me.cap
unfolding mask
mask_lem me k pos e = rw e (bit_and_mask k pos)

-- What a write of `src` from ring index `start` on does to the memory.
pub record Wrote (cap start : ℕ) (src : List ℕ) (m m' : Memory) : Type 0 where
  pub same_size : m'.size ≡ m.size
  pub fresh : (i : ℕ) → i < length src → m'.cell ((start + i) % cap) ≡ get_or src i 0
  pub kept :
      (i : ℕ) → length src ≤ i → i < cap → m'.cell ((start + i) % cap) ≡ m.cell ((start + i) % cap)
  pub outside : (j : ℕ) → cap ≤ j → m'.cell j ≡ m.cell j

module _ (cap start : ℕ) (src : List ℕ) (m : Memory) where
  -- Both shapes of the copy are this function on the cells.
  abbrev ring_overlay : ℕ → ℕ
  ring_overlay j =
      if ltb j cap
      then (if leb start j
          then (if ltb j (start + length src) then get_or src (j - start) 0 else m.cell j)
          else (if ltb (j + cap) (start + length src)
              then get_or src (j + cap - start) 0
              else m.cell j))
      else m.cell j

  ring_overlay-Wrote :
      start < cap
      → length src ≤ cap
      → (m' : Memory) → m'.size ≡ m.size
      → ((j : ℕ) → m'.cell j ≡ ring_overlay j)
      → Wrote cap start src m m'
  ring_overlay-Wrote hs hl m' e at = record {
    same_size = e;
    fresh = λ i h. fresh_at i h (dec_lt (start + i) cap);
    kept = λ i h k. kept_at i h k (dec_lt (start + i) cap);
    outside = λ j h. at j ∙ ground arith;
  }
    where
      near : (i : ℕ) → start + i < cap → (start + i) % cap ≡ start + i
      near i p = mod-eq_of_lt p

      far : (i : ℕ) → i < cap → ¬ (start + i < cap) → (start + i) % cap ≡ start + i - cap
      far i h p = wrap_index cap (start + i) (omega arith) ∙ ground arith

      fresh_at :
          (i : ℕ)
          → i < length src
          → Dec (start + i < cap)
          → m'.cell ((start + i) % cap) ≡ get_or src i 0
      fresh_at i h (yes p) =
          let e : start + i - start ≡ i = omega arith in
          rw (near i p) (at (start + i) ∙ ground (arith, ap (λ k. get_or src k 0) e))
      fresh_at i h (no p) =
          let e : start + i - cap + cap - start ≡ i = omega arith in
          rw (far i (omega arith) p)
            (at (start + i - cap) ∙ ground (arith, ap (λ k. get_or src k 0) e))

      kept_at :
          (i : ℕ)
          → length src ≤ i
          → i < cap
          → Dec (start + i < cap)
          → m'.cell ((start + i) % cap) ≡ m.cell ((start + i) % cap)
      kept_at i h k (yes p) = rw (near i p) (at (start + i) ∙ ground arith)
      kept_at i h k (no p) = rw (far i k p) (at (start + i - cap) ∙ ground arith)

  -- The two pieces of a write that goes past the end of the ring.
  two_pieces :
      start < cap
      → length src ≤ cap
      → ¬ (start + length src ≤ cap)
      → (j : ℕ)
      → overlay (overlay m.cell start (take (cap - start) src)) 0 (drop (cap - start) src) j
        ≡ ring_overlay j
  two_pieces hs hl p j = ground (
    arith,
    length-take first src,
    length-drop first src,
    get_or-take 0 first src (j - start),
    ap (λ k. get_or (drop first src) k 0) e0,
    get_or-drop 0 first src j,
    λ (q : j < cap). ap (λ k. get_or src k 0) (e1 q),
  )
    where
      first : ℕ
      first = cap - start

      e0 : j - 0 ≡ j
      e0 = omega arith

      e1 : j < cap → first + j ≡ j + cap - start
      e1 q = omega arith

-- A write of at most `cap` bytes stays inside the ring, and goes round it.
pub copy_in_lem :
    (me : ShmAudioBuffer) (m : Memory) (start : ℕ) (src : List ℕ)
    → start < me.cap
    → length src ≤ me.cap
    → me.cap ≤ m.size
    → (m' : Memory) × (copy_in me m start src ≡ some m') × Wrote me.cap start src m m'
unfolding copy_in
copy_in_lem me m start src hs hl hm = elim (dec_le (start + length src) me.cap) [
  | yes p ↦ (
    one,
    rw (le→leb (start + length src) me.cap p) (volatile_copy_to_lem m start src (omega arith)),
    ring_overlay-Wrote me.cap start src m hs hl one refl (λ j. ground arith),
  )
  | no p ↦ (
    two,
    rw
        (
          lt→leb (start + length src) me.cap (omega arith),
          volatile_copy_to_lem m start (take first src) (omega (arith, length-take first src)),
        )
        (volatile_copy_to_lem _ 0 (drop first src) (omega (arith, length-drop first src))),
    ring_overlay-Wrote me.cap start src m hs hl two refl (two_pieces me.cap start src m hs hl p),
  )
]
  where
    first : ℕ
    first = me.cap - start

    one : Memory
    one = record m { cell = overlay m.cell start src }

    two : Memory
    two = record m { cell = overlay (overlay m.cell start (take first src)) 0 (drop first src) }

-- A read of at most `cap` bytes stays inside the ring, and goes round it.
pub copy_out_lem :
    (me : ShmAudioBuffer) (m : Memory) (start wu : ℕ)
    → start < me.cap
    → wu ≤ me.cap
    → me.cap ≤ m.size
    → copy_out me m start wu ≡ some (tabulate (λ i. m.cell ((start + i) % me.cap)) 0 wu)
unfolding copy_out
copy_out_lem me m start wu hs hw hm = elim (dec_le (start + wu) me.cap) [
  | yes p ↦
      rw (le→leb (start + wu) me.cap p, volatile_copy_from_lem m start wu (omega arith))
        (ap some (tabulate_congr m.cell round start 0 wu (λ j h. ap m.cell (near j (omega arith)))))
  | no p ↦
      rw
        (
          lt→leb (start + wu) me.cap (omega arith),
          volatile_copy_from_lem m start first (omega arith),
          volatile_copy_from_lem m 0 (wu - first) (omega arith),
        )
        (ap some (pieces (omega arith)))
]
  where
    first : ℕ
    first = me.cap - start

    round : ℕ → ℕ
    round i = m.cell ((start + i) % me.cap)

    near : (j : ℕ) → start + j < me.cap → start + j ≡ (start + (0 + j)) % me.cap
    near j p = ap (λ t. start + t) (omega arith) ∙ sym (mod-eq_of_lt (omega arith))

    far : (j : ℕ) → first + j < me.cap + first → 0 + j ≡ (start + (0 + first + j)) % me.cap
    far j p = sym (wrap_index me.cap (start + (0 + first + j)) (omega arith) ∙ ground arith)

    pieces :
        first ≤ wu
        → tabulate m.cell start first ++ tabulate m.cell 0 (wu - first) ≡ tabulate round 0 wu
    pieces le =
        ap₂ ◌++◌
          (tabulate_congr m.cell round start 0 first (λ j h. ap m.cell (near j (omega arith))))
          (tabulate_congr m.cell round 0 (0 + first) (wu - first)
            (λ j h. ap m.cell (far j (omega arith))))
        ∙ tabulate-append round 0 first (wu - first)
        ∙ ap (tabulate round 0) (omega arith)
