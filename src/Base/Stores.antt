-- ===== src/Base/Stores.antt =====
-- A sequence of stores to one header, cut short: what a thread that loads meanwhile can see.
use Prim.Native.Nat.{ℕ, zero, suc, ◌≤◌}
use mathlib.Core.Path.{◌≡◌, refl}
use mathlib.Core.List.{List, [], ◌∷◌}
use native.Mathlib.Omega.{arith}
use lalah.Base.Lists.{length}

-- The header after the first `t` stores.
abbrev pub after {ℓ} : {A : Type ℓ} → List (A → A) → (t : ℕ) → A → A
after [] t h = h
after (store ∷ stores) zero h = h
after (store ∷ stores) (suc t) h = after stores t (store h)

-- The header after all of them.
abbrev pub run {ℓ} : {A : Type ℓ} → List (A → A) → A → A
run [] h = h
run (store ∷ stores) h = run stores (store h)

pub after-run {ℓ} :
    {A : Type ℓ} (stores : List (A → A)) (t : ℕ) (h : A)
    → length stores ≤ t
    → after stores t h ≡ run stores h
after-run [] t h le = refl
after-run (store ∷ stores) zero h le = absurd (omega arith)
after-run (store ∷ stores) (suc t) h le = after-run stores t (store h) (omega arith)
