-- ===== src/Audio/Ring/Frames.antt =====
-- Frame alignment of `head` and `tail`, under pushes and reads.
use lalah.Base.{
  ℕ, ◌+◌, ◌-◌, ◌/◌, ◌%◌, ◌<◌, ◌≡◌, sym, ap, ap₂, ◌∙◌, List, arith, length, length-drop, u64_mod,
  ◌⊎◌, inl, inr,
}
use native.Mathlib.Nat.{add-mod, mod-mod, mul-mod_left, zero-mod}
use native.Mathlib.Decide.{dec_lt, dec_le}
use lalah.Audio.Header.{ShmHeader}
use lalah.Audio.Ring.{Shm, ShmAudioBuffer, Plan, plan, newest}
use lalah.Audio.Ring.Push.{Pushed, pushed_header}
use lalah.Audio.Ring.Window.{unit, budget, plan_bounds, plan-head_cases}

-- `head` and `tail` stand at frame boundaries.
pub record IsAligned (shm : Shm) : Type 0 where
  pub tail_at : shm.hdr.tail % unit shm.hdr.frame_bytes ≡ 0
  pub head_at : shm.hdr.head % unit shm.hdr.frame_bytes ≡ 0

sum_at : (f a b : ℕ) → a % f ≡ 0 → b % f ≡ 0 → (a + b) % f ≡ 0
sum_at f a b p q = add-mod a b f ∙ ap₂ (λ s t. (s + t) % f) p q ∙ zero-mod f

sub_at : (f a b : ℕ) → a % f ≡ 0 → b % f ≡ 0 → (a - b) % f ≡ 0
sub_at f a b p q = elim (dec_le b a) [
  | yes le ↦
      let back : a - b + b ≡ a = omega arith in
      sym (
        sym p
        ∙ ap (λ t. t % f) (sym back)
        ∙ add-mod (a - b) b f
        ∙ ap (λ t. ((a - b) % f + t) % f) q
        ∙ ap (λ t. t % f) (omega arith)
        ∙ mod-mod (a - b) f)
  | no gt ↦ let nil : a - b ≡ 0 = omega arith in rw nil (zero-mod f)
]

newest_at :
    (f : ℕ) (me : ShmAudioBuffer) (src : List ℕ)
    → length src % f ≡ 0
    → me.cap % f ≡ 0
    → length (newest me src) % f ≡ 0
newest_at f me src p q = elim (dec_lt me.cap (length src)) [
  | yes long ↦
      let all : length (newest me src) ≡ me.cap =
        ground (arith, length-drop (length src - me.cap) src) in
      ap (λ t. t % f) all ∙ q
  | no short ↦
      let all : length (newest me src) ≡ length src = ground arith in ap (λ t. t % f) all ∙ p
]

-- The header words of a push.
pub pushed_words :
    (h h' : ShmHeader) (n : ℕ)
    → h.tail + n < u64_mod
    → h' ≡ pushed_header h n
    → (h'.tail ≡ h.tail + n) × (h'.head ≡ h.head) × (h'.frame_bytes ≡ h.frame_bytes)
pushed_words h h' n room e = ground arith

-- A push of whole frames into a ring of whole frames, with `tail` staying below 2^64, keeps
-- `head` and `tail` at frame boundaries.
pub Pushed-IsAligned :
    {me : ShmAudioBuffer} {shm shm' : Shm} {stream src : List ℕ}
    → IsAligned shm
    → length src % unit shm.hdr.frame_bytes ≡ 0
    → me.cap % unit shm.hdr.frame_bytes ≡ 0
    → shm.hdr.tail + length (newest me src) < u64_mod
    → Pushed me shm stream src shm'
    → IsAligned shm'
Pushed-IsAligned {me} {shm} {shm'} {stream} {src} a whole ring room p =
    let (t, h, f) = pushed_words shm.hdr shm'.hdr (length (newest me src)) room p.header in
    record {
      tail_at =
          rw (t, f)
            (sum_at (unit shm.hdr.frame_bytes) shm.hdr.tail (length (newest me src)) a.tail_at
              (newest_at (unit shm.hdr.frame_bytes) me src whole ring));
      head_at = rw (h, f) a.head_at;
    }

module _ (out_len max_latency_bytes : ℕ) {shm : Shm} (a : IsAligned shm) where
  abbrev p : Plan
  p = plan shm.hdr.frame_bytes out_len max_latency_bytes shm.hdr.tail shm.hdr.head

  abbrev f : ℕ
  f = unit shm.hdr.frame_bytes

  plan-head_at :
      (p.head ≡ shm.hdr.tail - budget shm.hdr.frame_bytes max_latency_bytes)
        ⊎ (p.head ≡ shm.hdr.head)
        ⊎ (p.head ≡ shm.hdr.tail)
      → p.head % f ≡ 0
  plan-head_at (inl e) =
      ap (λ t. t % f) e ∙ sub_at f shm.hdr.tail _ a.tail_at (mul-mod_left (max_latency_bytes / f) f)
  plan-head_at (inr (inl e)) = ap (λ t. t % f) e ∙ a.head_at
  plan-head_at (inr (inr e)) = ap (λ t. t % f) e ∙ a.tail_at

  start_at : p.head % f ≡ 0
  start_at =
      plan-head_at
        (plan-head_cases shm.hdr.frame_bytes out_len max_latency_bytes shm.hdr.tail shm.hdr.head)

  -- If `head` and `tail` stand at frame boundaries, a read starts at one and leaves `head` at
  -- one.
  pub plan-IsAligned :
      (p.head % f ≡ 0) × IsAligned (record shm { hdr = record shm.hdr { head = p.head + p.want } })
  plan-IsAligned = (
    start_at,
    record {
      tail_at = a.tail_at;
      head_at =
          sum_at f p.head p.want start_at
            (plan_bounds shm.hdr.frame_bytes out_len max_latency_bytes shm.hdr.tail shm.hdr.head).0;
    },
  )
