-- ===== src/Audio/Ring/Window.antt =====
-- The arithmetic of `read_quantum`: where it reads from and how much it delivers.
use lalah.Base.{◌⊎◌, ℕ, ◌+◌, ◌-◌, ◌*◌, ◌/◌, ◌%◌, ◌≤◌, ◌<◌, ◌≡◌, sym, ap, ◌∙◌, arith, min, max}
use native.Mathlib.Nat.{div-mul-le_self, mul-mod_left, lt-div-mul-add, mul-div_cancel}
use native.Mathlib.Nat.{min-eq_left, min-eq_right, div-eq_of_lt-le}
use native.Mathlib.Decide.{dec_le}
use lalah.Audio.Ring.{Plan, plan}

-- The unit of every read: a frame, or a byte while the format is unset.
abbrev pub unit : ℕ → ℕ
unit frame_bytes = max frame_bytes 1

-- The backlog that a read lets stand, in whole frames.
abbrev pub budget : ℕ → ℕ → ℕ
budget frame_bytes max_latency_bytes = max_latency_bytes / unit frame_bytes * unit frame_bytes

-- Cutting the window to whole units first loses no whole unit.
floor_min : (f a b : ℕ) → 0 < f → min (a / f * f) b / f ≡ min a b / f
floor_min f a b h = elim (dec_le b (a / f * f)) [
  | yes le ↦
      ap (λ t. t / f) (min-eq_right le ∙ sym (min-eq_right (omega (arith, div-mul-le_self a f))))
  | no gt ↦
      ap (λ t. t / f) (min-eq_left (omega arith))
      ∙ mul-div_cancel (a / f) h
      ∙ sym (div-eq_of_lt-le f (between gt).0 (between gt).1)
]
  where
    between : ¬ (b ≤ a / f * f) → (a / f * f ≤ min a b) × (min a b < (a / f + 1) * f)
    between gt = omega (arith, div-mul-le_self a f, lt-div-mul-add {a = a} h)

module _ (frame_bytes out_len max_latency_bytes tail head : ℕ) where
  abbrev p : Plan
  p = plan frame_bytes out_len max_latency_bytes tail head

  abbrev f : ℕ
  f = unit frame_bytes

  f_pos : 0 < f
  f_pos = omega arith

  -- The position that a read starts from is behind `tail` by the budget in whole frames at most,
  -- never past `tail`, and never before `head`.
  pub plan-head :
      (p.head ≤ tail)
      × (tail ≤ p.head + budget frame_bytes max_latency_bytes)
      × (min head tail ≤ p.head)
  unfolding plan
  plan-head = ground arith

  pub plan-head_cases :
      (p.head ≡ tail - budget frame_bytes max_latency_bytes) ⊎ (p.head ≡ head) ⊎ (p.head ≡ tail)
  unfolding plan
  plan-head_cases = ground arith

  -- While the backlog is within the budget, nothing is skipped.
  pub plan-head_of_le :
      head ≤ tail → tail - head ≤ budget frame_bytes max_latency_bytes → p.head ≡ head
  unfolding plan
  plan-head_of_le h b = ground arith

  -- The bytes delivered are as many whole frames as the window and the backlog have both.
  pub plan-want : p.want ≡ min out_len (tail - p.head) / f * f
  unfolding plan
  plan-want = ap (λ t. t * f) (floor_min f out_len (tail - p.head) f_pos)

  -- A read delivers whole frames only, within the caller's window and the backlog.
  pub plan_bounds : (p.want % f ≡ 0) × (p.want ≤ out_len) × (p.head + p.want ≤ tail)
  plan_bounds = rw plan-want (
    mul-mod_left (min out_len (tail - p.head) / f) f,
    omega (arith, div-mul-le_self (min out_len (tail - p.head)) f),
    omega (arith, div-mul-le_self (min out_len (tail - p.head)) f, plan-head),
  )

  -- Less is delivered than asked for only if less than one more frame is there.
  pub plan_maximal : min out_len (tail - p.head) < p.want + f
  plan_maximal = rw plan-want (lt-div-mul-add f_pos)
