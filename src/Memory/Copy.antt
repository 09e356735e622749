-- ===== src/Memory/Copy.antt =====
-- The effect of the byte-wise copies inside the mapping.
use lalah.Base.{
  ℕ, zero, suc, ◌+◌, ◌-◌, ◌≤◌, ◌≡◌, refl, ap, ◌∙◌, fun_ext, List, [], ◌∷◌, some, arith, ltb, leb,
  ◌&&◌, if◌then◌else◌, length, get_or, tabulate, lt→ltb,
}
use native.Mathlib.Decide.{dec_lt}
use lalah.Memory.{Memory, update, volatile_copy_to, volatile_copy_from}

-- `src` laid over `f` from `off` on.
abbrev pub overlay : (ℕ → ℕ) → ℕ → List ℕ → ℕ → ℕ
overlay f off src j = if leb off j && ltb j (off + length src) then get_or src (j - off) 0 else f j

pub overlay-nil : (f : ℕ → ℕ) (off j : ℕ) → f j ≡ overlay f off [] j
overlay-nil f off j = ground arith

overlay-cons :
    (f : ℕ → ℕ) (off b : ℕ) (src : List ℕ) (j : ℕ)
    → overlay (update f off b) (off + 1) src j ≡ overlay f off (b ∷ src) j
overlay-cons f off b src j = elim (dec_lt off j) [
  | yes above ↦
      let e : j - off ≡ suc (j - (off + 1)) = omega arith in
      ground (arith, ap (λ k. get_or (b ∷ src) k 0) e)
  | no below ↦ let e : j - off ≡ 0 = omega arith in ground (arith, ap (λ k. get_or (b ∷ src) k 0) e)
]

pub volatile_copy_to_lem :
    (m : Memory) (off : ℕ) (src : List ℕ)
    → off + length src ≤ m.size
    → volatile_copy_to m off src ≡ some (record m { cell = overlay m.cell off src })
unfolding volatile_copy_to
volatile_copy_to_lem m off [] h =
    ap (λ f. some (record m { cell = f })) (fun_ext (overlay-nil m.cell off))
volatile_copy_to_lem m off (b ∷ src) h = rw (lt→ltb off m.size (omega arith)) (
    volatile_copy_to_lem (record m { cell = update m.cell off b }) (off + 1) src (omega arith)
    ∙ ap (λ f. some (record m { cell = f })) (fun_ext (overlay-cons m.cell off b src)))

pub volatile_copy_from_lem :
    (m : Memory) (off n : ℕ)
    → off + n ≤ m.size
    → volatile_copy_from m off n ≡ some (tabulate m.cell off n)
unfolding volatile_copy_from
volatile_copy_from_lem m off zero h = refl
volatile_copy_from_lem m off (suc n) h =
    rw (lt→ltb off m.size (omega arith), volatile_copy_from_lem m (off + 1) n (omega arith)) refl
