-- ===== src/Base/Lists.antt =====
-- Lists measured and indexed by native numbers, under the library's names.
use Prim.Native.Nat.{ℕ, zero, suc, ◌+◌, ◌-◌, ◌<◌, ◌≤◌, min}
use mathlib.Core.Path.{◌≡◌, refl, ap, ap₂, sym, ◌∙◌}
use mathlib.Core.List.{List, [], ◌∷◌, ◌++◌}
use native.Mathlib.Omega.{arith}
use lalah.Base.Tests.{ltb, if◌then◌else◌}

module _ {ℓ} {A : Type ℓ} where
  abbrev pub length : List A → ℕ
  length [] = 0
  length (x ∷ xs) = suc (length xs)

  abbrev pub get_or : List A → ℕ → A → A
  get_or [] i d = d
  get_or (x ∷ xs) zero d = x
  get_or (x ∷ xs) (suc i) d = get_or xs i d

  abbrev pub take : ℕ → List A → List A
  take zero xs = []
  take (suc n) [] = []
  take (suc n) (x ∷ xs) = x ∷ take n xs

  abbrev pub drop : ℕ → List A → List A
  drop zero xs = xs
  drop (suc n) [] = []
  drop (suc n) (x ∷ xs) = drop n xs

  abbrev pub replicate : ℕ → A → List A
  replicate zero a = []
  replicate (suc n) a = a ∷ replicate n a

  -- The list of `f i`, `f (i + 1)`, …, of length `n`.
  abbrev pub tabulate : (ℕ → A) → ℕ → ℕ → List A
  tabulate f i zero = []
  tabulate f i (suc n) = f i ∷ tabulate f (i + 1) n

  pub length-append : (xs ys : List A) → length (xs ++ ys) ≡ length xs + length ys
  length-append [] ys = omega arith
  length-append (x ∷ xs) ys = omega (arith, length-append xs ys)

  pub length-take : (n : ℕ) (xs : List A) → length (take n xs) ≡ min n (length xs)
  length-take zero xs = omega arith
  length-take (suc n) [] = omega arith
  length-take (suc n) (x ∷ xs) = omega (arith, length-take n xs)

  pub length-drop : (n : ℕ) (xs : List A) → length (drop n xs) ≡ length xs - n
  length-drop zero xs = omega arith
  length-drop (suc n) [] = omega arith
  length-drop (suc n) (x ∷ xs) = omega (arith, length-drop n xs)

  pub length-replicate : (n : ℕ) (a : A) → length (replicate n a) ≡ n
  length-replicate zero a = refl
  length-replicate (suc n) a = ap suc (length-replicate n a)

  pub length-tabulate : (f : ℕ → A) (i n : ℕ) → length (tabulate f i n) ≡ n
  length-tabulate f i zero = refl
  length-tabulate f i (suc n) = ap suc (length-tabulate f (i + 1) n)

  pub take_all : (n : ℕ) (xs : List A) → length xs ≤ n → take n xs ≡ xs
  take_all zero [] h = refl
  take_all zero (x ∷ xs) h = absurd (omega arith)
  take_all (suc n) [] h = refl
  take_all (suc n) (x ∷ xs) h = ap (λ ys. x ∷ ys) (take_all n xs (omega arith))

  pub drop_all : (n : ℕ) (xs : List A) → length xs ≤ n → drop n xs ≡ []
  drop_all zero [] h = refl
  drop_all zero (x ∷ xs) h = absurd (omega arith)
  drop_all (suc n) [] h = refl
  drop_all (suc n) (x ∷ xs) h = drop_all n xs (omega arith)

  pub take-append-drop : (n : ℕ) (xs : List A) → take n xs ++ drop n xs ≡ xs
  take-append-drop zero xs = refl
  take-append-drop (suc n) [] = refl
  take-append-drop (suc n) (x ∷ xs) = ap (λ t. x ∷ t) (take-append-drop n xs)

module _ {ℓ} {A : Type ℓ} (d : A) where
  pub get_or-take : (n : ℕ) (xs : List A) (i : ℕ) → i < n → get_or (take n xs) i d ≡ get_or xs i d
  get_or-take zero xs i h = elim h [ ]
  get_or-take (suc n) [] i h = refl
  get_or-take (suc n) (x ∷ xs) zero h = refl
  get_or-take (suc n) (x ∷ xs) (suc i) h = get_or-take n xs i (omega arith)

  pub get_or-drop : (n : ℕ) (xs : List A) (i : ℕ) → get_or (drop n xs) i d ≡ get_or xs (n + i) d
  get_or-drop zero xs i = ap (λ k. get_or xs k d) (omega arith)
  get_or-drop (suc n) [] i = refl
  get_or-drop (suc n) (x ∷ xs) i =
      let e : suc n + i ≡ suc (n + i) = omega arith in
      get_or-drop n xs i ∙ ap (λ k. get_or (x ∷ xs) k d) (sym e)

  pub get_or-append :
      (xs ys : List A) (i : ℕ)
      → get_or (xs ++ ys) i d
        ≡ (if ltb i (length xs) then get_or xs i d else get_or ys (i - length xs) d)
  get_or-append [] ys i =
      let e : i ≡ i - 0 = omega arith in ap (λ k. get_or ys k d) e ∙ ground arith
  get_or-append (x ∷ xs) ys zero = ground arith
  get_or-append (x ∷ xs) ys (suc i) = ground (arith, get_or-append xs ys i)

  pub get_or-tabulate : (f : ℕ → A) (i n j : ℕ) → j < n → get_or (tabulate f i n) j d ≡ f (i + j)
  get_or-tabulate f i zero j h = elim h [ ]
  get_or-tabulate f i (suc n) zero h = ap f (omega arith)
  get_or-tabulate f i (suc n) (suc j) h =
      get_or-tabulate f (i + 1) n j (omega arith) ∙ ap f (omega arith)

  -- Two lists of one length with the same elements are equal.
  pub list_ext :
      (xs ys : List A)
      → length xs ≡ length ys
      → ((i : ℕ) → i < length xs → get_or xs i d ≡ get_or ys i d)
      → xs ≡ ys
  list_ext [] [] e h = refl
  list_ext [] (y ∷ ys) e h = absurd (omega arith)
  list_ext (x ∷ xs) [] e h = absurd (omega arith)
  list_ext (x ∷ xs) (y ∷ ys) e h =
      ap₂ ◌∷◌ (h 0 (omega arith)) (list_ext xs ys (omega arith) (λ i p. h (suc i) (omega arith)))

-- A table depends only on the values it reads.
pub tabulate_congr {ℓ} :
    {A : Type ℓ} (f g : ℕ → A) (i k n : ℕ)
    → ((j : ℕ) → j < n → f (i + j) ≡ g (k + j))
    → tabulate f i n ≡ tabulate g k n
tabulate_congr f g i k zero h = refl
tabulate_congr f g i k (suc n) h =
    ap₂ ◌∷◌ (ap f (omega arith) ∙ h 0 (omega arith) ∙ ap g (omega arith)) (
      tabulate_congr f g (i + 1) (k + 1) n
        (λ j p. ap f (omega arith) ∙ h (suc j) (omega arith) ∙ ap g (omega arith)))

pub tabulate-append {ℓ} :
    {A : Type ℓ} (f : ℕ → A) (i n k : ℕ)
    → tabulate f i n ++ tabulate f (i + n) k ≡ tabulate f i (n + k)
tabulate-append f i zero k =
    let e : i + 0 ≡ i = omega arith in let e' : 0 + k ≡ k = omega arith in rw (e, e')
tabulate-append f i (suc n) k =
    let e : i + suc n ≡ i + 1 + n = omega arith in
    let e' : suc n + k ≡ suc (n + k) = omega arith in
    rw (e, e') (ap (λ t. f i ∷ t) (tabulate-append f (i + 1) n k))

pub nil_of_length {ℓ} : {A : Type ℓ} (xs : List A) → length xs ≡ 0 → xs ≡ []
nil_of_length [] e = refl
nil_of_length (x ∷ xs) e = absurd (omega arith)
