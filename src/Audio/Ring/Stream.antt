-- ===== src/Audio/Ring/Stream.antt =====
-- The ring as a window on the stream of all bytes ever pushed: what a valid ring holds.
use lalah.Base.{
  ℕ, ◌+◌, ◌-◌, ◌%◌, ◌^◌, ◌≤◌, ◌<◌, ◌≡◌, sym, ap, ◌∙◌, List, ◌++◌, arith, length, get_or,
  length-drop, get_or-append, length-append, u64_mod,
}
use native.Mathlib.Nat.{mod-add-mod, add-mod_right, one-le-pow}
use native.Mathlib.Decide.{dec_lt}
use lalah.Memory.{Memory}
use lalah.Audio.Ring.{Shm, ShmAudioBuffer, mask, newest}
use lalah.Audio.Ring.Index.{Wrote, mask_lem}

-- The handle's capacity is a power of two that fits the mapping.
pub record IsValid (me : ShmAudioBuffer) (shm : Shm) : Type 0 where
  pub log_cap : ℕ
  pub cap_pow : me.cap ≡ 2 ^ log_cap
  pub fits : me.cap ≤ shm.payload.size

-- The newest `cap` bytes of the stream stand at their positions modulo `cap`.
abbrev pub Kept : ℕ → Memory → List ℕ → Type 0
Kept cap m stream =
    (p : ℕ) → p < length stream → length stream ≤ p + cap → m.cell (p % cap) ≡ get_or stream p 0

-- `tail` counts the bytes of the stream, and the ring keeps the newest.
pub record Holds (me : ShmAudioBuffer) (shm : Shm) (stream : List ℕ) : Type 0 where
  pub count : shm.hdr.tail ≡ length stream
  pub small : length stream < u64_mod
  pub kept : Kept me.cap shm.payload stream

pub cap_pos : {me : ShmAudioBuffer} {shm : Shm} → IsValid me shm → 0 < me.cap
cap_pos v = rw v.cap_pow (one-le-pow v.log_cap 2 (omega arith))

pub mask-IsValid :
    {me : ShmAudioBuffer} {shm : Shm} → IsValid me shm → (pos : ℕ) → mask me pos ≡ pos % me.cap
mask-IsValid {me} v pos = mask_lem me v.log_cap pos v.cap_pow

pub length-newest : (me : ShmAudioBuffer) (src : List ℕ) → length (newest me src) ≤ me.cap
length-newest me src = ground (arith, length-drop (length src - me.cap) src)

-- Two positions a whole round apart share a cell.
same_cell : (cap t i p : ℕ) → (t + i ≡ p + cap) → (t % cap + i) % cap ≡ p % cap
same_cell cap t i p e = mod-add-mod t cap i ∙ ap (λ k. k % cap) e ∙ add-mod_right p cap

-- Writing the next bytes of the stream behind its end keeps the window.
pub Wrote-Kept :
    (cap : ℕ) (stream src : List ℕ) {m m' : Memory}
    → 0 < cap
    → length src ≤ cap
    → Wrote cap (length stream % cap) src m m'
    → Kept cap m stream
    → Kept cap m' (stream ++ src)
Wrote-Kept cap stream src {m} {m'} pos le w k p lt near = elim (dec_lt p t) [
  | yes old ↦
      let e : (t % cap + (p + cap - t)) % cap ≡ p % cap =
        same_cell cap t (p + cap - t) p (omega (arith, total)) in
      ap m'.cell (sym e)
      ∙ w.kept (p + cap - t) (omega (arith, total)) (omega arith)
      ∙ ap m.cell e
      ∙ k p old (omega (arith, total))
      ∙ ground (arith, get_or-append 0 stream src p)
  | no new ↦
      let e : (t % cap + (p - t)) % cap ≡ p % cap =
        mod-add-mod t cap (p - t) ∙ ap (λ k. k % cap) (omega arith) in
      ap m'.cell (sym e)
      ∙ w.fresh (p - t) (omega (arith, total))
      ∙ ground (arith, get_or-append 0 stream src p)
]
  where
    t : ℕ
    t = length stream

    total : length (stream ++ src) ≡ length stream + length src
    total = length-append stream src
