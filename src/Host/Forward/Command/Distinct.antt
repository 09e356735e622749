-- ===== src/Host/Forward/Command/Distinct.antt =====
-- What a FourCC prints as tells which one it is (lalah-host/src/video.rs).
use lalah.Base.{
  ℕ, zero, suc, ◌+◌, ◌*◌, ◌/◌, ◌%◌, ◌<◌, ◌≤◌, ◌≡◌, inl, inr, refl, sym, ap, ap₂, ◌∙◌, true, List,
  [], ◌∷◌, ◌++◌, arith, length, length-append, drop, get_or, Bool-cases, u32_mod, eq→==, ne→==,
}
use native.Mathlib.Decide.{ℕ_discrete}
use lalah.Base.Texts.{
  codes, byte_at, to_le_bytes, is_printable, all_printable, put_before, trim_end, hex_digit, hex,
}
use lalah.Host.Forward.Command.{fourcc_string}

-- Behind the end of a text there are spaces, so that trimming spaces off changes nothing.
put_before_lem :
    (c : ℕ) (rest : List ℕ) (i : ℕ)
    → is_printable c ≡ true
    → get_or (put_before c rest) i 32 ≡ get_or (c ∷ rest) i 32
put_before_lem c (d ∷ rest) i p = refl
put_before_lem c [] zero p = ground arith
put_before_lem c [] (suc i) p = ground arith

trim_end_lem :
    (cs : List ℕ) (i : ℕ) → all_printable cs ≡ true → get_or (trim_end cs) i 32 ≡ get_or cs i 32
trim_end_lem [] i p = refl
trim_end_lem (c ∷ cs) zero p = put_before_lem c (trim_end cs) zero (ground arith)
trim_end_lem (c ∷ cs) (suc i) p =
    put_before_lem c (trim_end cs) (suc i) (ground arith) ∙ trim_end_lem cs i (ground arith)

put_before_short : (c : ℕ) (rest : List ℕ) → length (put_before c rest) ≤ length rest + 1
put_before_short c (d ∷ rest) = omega arith
put_before_short c [] = ground arith

trim_end_short : (cs : List ℕ) → length (trim_end cs) ≤ length cs
trim_end_short [] = omega arith
trim_end_short (c ∷ cs) = omega (arith, put_before_short c (trim_end cs), trim_end_short cs)

beyond : (cs : List ℕ) (i : ℕ) → length cs ≤ i → get_or cs i 0 ≡ 0
beyond [] i le = refl
beyond (c ∷ cs) zero le = absurd (omega arith)
beyond (c ∷ cs) (suc i) le = beyond cs i (omega arith)

-- Two digits that print alike are the same.
hex_digit-injective : (d e : ℕ) → d < 16 → e < 16 → hex_digit d ≡ hex_digit e → d ≡ e
hex_digit-injective d e hd he h = ground arith

word_of_bytes :
    (w : ℕ)
    → w < u32_mod
    → w
      ≡ byte_at w 1
        + byte_at w 0x100 * 0x100
        + byte_at w 0x1_0000 * 0x1_0000
        + byte_at w 0x100_0000 * 0x100_0000
word_of_bytes w lt = omega arith

-- The bytes of a printable code, from its text.
chars_distinct :
    (v w : ℕ)
    → v < u32_mod
    → w < u32_mod
    → all_printable (to_le_bytes v) ≡ true
    → all_printable (to_le_bytes w) ≡ true
    → trim_end (to_le_bytes v) ≡ trim_end (to_le_bytes w)
    → v ≡ w
chars_distinct v w hv hw pv pw e =
    omega (arith, word_of_bytes v hv, word_of_bytes w hw, same 0, same 1, same 2, same 3)
  where
    same : (i : ℕ) → get_or (to_le_bytes v) i 32 ≡ get_or (to_le_bytes w) i 32
    same i =
        sym (trim_end_lem (to_le_bytes v) i pv)
        ∙ ap (λ t. get_or t i 32) e
        ∙ trim_end_lem (to_le_bytes w) i pw

-- 16 to the number of digits.
abbrev bound : ℕ → ℕ
bound zero = 1
bound (suc n) = 16 * bound n

cons-injective : {c d : ℕ} {xs ys : List ℕ} → c ∷ xs ≡ d ∷ ys → (c ≡ d) × (xs ≡ ys)
cons-injective e = (ap (λ t. get_or t 0 0) e, ap (λ t. drop 1 t) e)

snoc-injective : (xs ys : List ℕ) (x y : ℕ) → xs ++ x ∷ [] ≡ ys ++ y ∷ [] → (xs ≡ ys) × (x ≡ y)
snoc-injective [] [] x y e = (refl, (cons-injective e).0)
snoc-injective [] (d ∷ ys) x y e = absurd (omega (arith, ap length e, length-append ys (y ∷ [])))
snoc-injective (c ∷ xs) [] x y e = absurd (omega (arith, ap length e, length-append xs (x ∷ [])))
snoc-injective (c ∷ xs) (d ∷ ys) x y e =
    let (same, rest) = cons-injective e in
    let (front, last) = snoc-injective xs ys x y rest in
    (ap₂ (λ (h : ℕ) (t : List ℕ). h ∷ t) same front, last)

hex_distinct : (n v w : ℕ) → v < bound n → w < bound n → hex n v ≡ hex n w → v ≡ w
hex_distinct zero v w hv hw e = omega arith
hex_distinct (suc n) v w hv hw e =
    let (front, last) =
      snoc-injective (hex n (v / 16)) (hex n (w / 16)) (hex_digit (v % 16)) (hex_digit (w % 16))
        e in
    omega (
      arith,
      hex_distinct n (v / 16) (w / 16) (omega arith) (omega arith) front,
      hex_digit-injective (v % 16) (w % 16) (omega arith) (omega arith) last,
    )

-- The three ways in which a code is printed.
data Printed (w : ℕ) (t : List ℕ) : Type 0 where
  rgb : w ≡ 0 → t ≡ codes "RGB/BI_RGB" → Printed w t
  chars : all_printable (to_le_bytes w) ≡ true → t ≡ trim_end (to_le_bytes w) → Printed w t
  number : t ≡ codes "0x" ++ hex 8 w → Printed w t

fourcc_string-Printed : (w : ℕ) → Printed w (fourcc_string w)
unfolding fourcc_string
fourcc_string-Printed w = elim (ℕ_discrete w 0) [
  | yes e ↦ rgb e (rw (eq→== w 0 e) refl)
  | no ne ↦ elim (Bool-cases (all_printable (to_le_bytes w))) [
    | inl p ↦ chars p (rw (ne→== w 0 ne, p) refl)
    | inr p ↦ number (rw (ne→== w 0 ne, p) refl)
  ]
]

-- The first character of a number, and that it and the word for 0 are longer than four characters.
char_at : (i : ℕ) {s t : List ℕ} → s ≡ t → get_or s i 0 ≡ get_or t i 0
char_at i e = ap (λ t. get_or t i 0) e

hex_digit-pos : (d : ℕ) → 0 < hex_digit d
hex_digit-pos d = ground arith

short : (w : ℕ) → get_or (trim_end (to_le_bytes w)) 4 0 ≡ 0
short w = beyond (trim_end (to_le_bytes w)) 4 (omega (arith, trim_end_short (to_le_bytes w)))

third : (w : ℕ) → 0 < get_or (codes "0x" ++ hex 8 w) 4 0
third w = hex_digit-pos (w / 16 / 16 / 16 / 16 / 16 % 16)

apart :
    {v w : ℕ} {s t : List ℕ} → v < u32_mod → w < u32_mod → Printed v s → Printed w t → s ≡ t → v ≡ w
apart hv hw (rgb e p) (rgb e' p') same = e ∙ sym e'
apart {v} {w} hv hw (rgb e p) (chars q p') same =
    absurd (omega (arith, short w, char_at 4 (sym p ∙ same ∙ p')))
apart {v} {w} hv hw (rgb e p) (number p') same =
    absurd (omega (arith, char_at 0 (sym p ∙ same ∙ p')))
apart {v} {w} hv hw (chars q p) (rgb e' p') same =
    absurd (omega (arith, short v, char_at 4 (sym p ∙ same ∙ p')))
apart {v} {w} hv hw (chars q p) (chars q' p') same =
    chars_distinct v w hv hw q q' (sym p ∙ same ∙ p')
apart {v} {w} hv hw (chars q p) (number p') same =
    absurd (omega (arith, short v, char_at 4 (sym p ∙ same ∙ p'), third w))
apart {v} {w} hv hw (number p) (rgb e' p') same =
    absurd (omega (arith, char_at 0 (sym p ∙ same ∙ p')))
apart {v} {w} hv hw (number p) (chars q' p') same =
    absurd (omega (arith, short w, char_at 4 (sym p ∙ same ∙ p'), third v))
apart {v} {w} hv hw (number p) (number p') same =
    hex_distinct 8 v w (omega arith) (omega arith) (ap (λ t. drop 2 t) (sym p ∙ same ∙ p'))

-- Two codes, `u32` words, that print alike are the same.
fourcc_string-injective :
    (v w : ℕ) → v < u32_mod → w < u32_mod → fourcc_string v ≡ fourcc_string w → v ≡ w
fourcc_string-injective v w hv hw e =
    apart hv hw (fourcc_string-Printed v) (fourcc_string-Printed w) e
