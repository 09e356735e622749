-- ===== src/Base/Rounds.antt =====
-- Positions modulo a number of places: indices less than two rounds apart.
use Prim.Native.Nat.{ℕ, ◌+◌, ◌-◌, ◌%◌, ◌<◌}
use mathlib.Core.Path.{◌≡◌, ◌∙◌, ap}
use mathlib.Core.Logic.{◌≢◌}
use native.Mathlib.Nat.{mod-eq_of_lt, mod-eq-sub-mod, mod-add-mod, mod-lt}
use native.Mathlib.Decide.{dec_lt}
use native.Mathlib.Omega.{arith}
use lalah.Base.Tests.{ltb, if◌then◌else◌}

-- An index less than two rounds from the start of the ring.
pub wrap_index : (cap k : ℕ) → k < cap + cap → k % cap ≡ (if ltb k cap then k else k - cap)
wrap_index cap k h = elim (dec_lt k cap) [
  | yes p ↦ ground (arith, mod-eq_of_lt p)
  | no p ↦ ground (
    arith,
    mod-eq-sub-mod {n = k} {m = cap} (omega arith),
    mod-eq_of_lt {n = k - cap} {m = cap} (omega arith),
  )
]

-- Two positions less than a round apart are at different places.
pub mod_distinct : (n f g : ℕ) → f < g → g < f + n → g % n ≢ f % n
mod_distinct n f g lt near e =
    ground (arith, r, wrap_index n (f % n + (g - f)) (omega (arith, r)), shifted)
  where
    r : f % n < n
    r = mod-lt f (omega arith)

    shifted : (f % n + (g - f)) % n ≡ f % n
    shifted = mod-add-mod f n (g - f) ∙ ap (λ k. k % n) (omega arith) ∙ e
