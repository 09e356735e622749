-- ===== src/Base/Checks.antt =====
-- `?` behind a call that answers nothing, or an error.
use Prim.Native.Nat.{ℕ}
use mathlib.Core.Path.{◌≡◌, refl}
use mathlib.Core.Option.{Option, none, some}
use mathlib.Core.List.{List, [], ◌∷◌}
use mathlib.Core.Bool.{Bool, true, false}
use lalah.Base.Tests.{Result, ok, err, if◌then◌else◌}

-- What follows, or what is left on an error.
abbrev pub check {ℓ} : {A : Type ℓ} → Option ℕ → (fail : ℕ → A) → A → A
check none fail rest = rest
check (some e) fail rest = fail e

abbrev pub check_value {ℓ} : {A : Type ℓ} → Result ℕ ℕ → (fail : ℕ → A) → (ℕ → A) → A
check_value (ok n) fail rest = rest n
check_value (err e) fail rest = fail e

-- The first error of calls in a row.
abbrev pub first_error : List (Option ℕ) → Option ℕ
first_error [] = none
first_error (none ∷ calls) = first_error calls
first_error (some e ∷ calls) = some e

pub check_lem {ℓ} :
    {A : Type ℓ} (P : A → Type 0) (o : Option ℕ) (fail : ℕ → A) (rest : A)
    → ((e : ℕ) → o ≡ some e → P (fail e))
    → P rest
    → P (check o fail rest)
check_lem P none fail rest h k = k
check_lem P (some e) fail rest h k = h e refl

pub check_value_lem {ℓ} :
    {A : Type ℓ} (P : A → Type 0) (o : Result ℕ ℕ) (fail : ℕ → A) (rest : ℕ → A)
    → ((e : ℕ) → P (fail e))
    → ((n : ℕ) → P (rest n))
    → P (check_value o fail rest)
check_value_lem P (ok n) fail rest h k = k n
check_value_lem P (err e) fail rest h k = h e

-- The same, with what the call has answered where nothing has failed.
pub check_cases {ℓ} :
    {A : Type ℓ} (P : A → Type 0) (o : Option ℕ) (fail : ℕ → A) (rest : A)
    → ((e : ℕ) → o ≡ some e → P (fail e))
    → (o ≡ none → P rest)
    → P (check o fail rest)
check_cases P none fail rest h k = k refl
check_cases P (some e) fail rest h k = h e refl

-- The same, with what the call has answered.
pub check_value_cases {ℓ} :
    {A : Type ℓ} (P : A → Type 0) (o : Result ℕ ℕ) (fail : ℕ → A) (rest : ℕ → A)
    → ((e : ℕ) → o ≡ err e → P (fail e))
    → ((n : ℕ) → o ≡ ok n → P (rest n))
    → P (check_value o fail rest)
check_value_cases P (ok n) fail rest h k = k n refl
check_value_cases P (err e) fail rest h k = h e refl

-- A property of both branches.
pub if_cases {ℓ} :
    {A : Type ℓ} (P : A → Type 0) (b : Bool) {x y : A}
    → (b ≡ true → P x)
    → (b ≡ false → P y)
    → P (if b then x else y)
if_cases P true h k = h refl
if_cases P false h k = k refl

pub if_lem {ℓ} :
    {A : Type ℓ} (P : A → Type 0) (b : Bool) {x y : A} → P x → P y → P (if b then x else y)
if_lem P b h k = if_cases P b (λ _. h) (λ _. k)
