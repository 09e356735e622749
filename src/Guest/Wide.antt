-- ===== src/Guest/Wide.antt =====
-- The NUL-terminated UTF-16 texts that packages/lalah-vm/src hands to Windows: `wide` of dshow.rs, and
-- the same two lines in `capture_exclusive` of wasapi.rs and in `open_graph` of video.rs.
use Prim.Native.Char.{char, IsScalar}
use Prim.Native.String.{String}
use lalah.Base.{
  ℕ, zero, suc, ◌+◌, ◌-◌, ◌*◌, ◌/◌, ◌%◌, ◌<◌, ◌≤◌, ◌≡◌, refl, ap, ◌∙◌, Bool, true, false, ◌&&◌,
  Option, none, some, List, [], ◌∷◌, ◌++◌, arith, ltb, leb, ◌==◌, if◌then◌else◌, ◌>>=◌, lt→ltb,
  le→ltb,
}
use mathlib.Core.List.{append_assoc}
use native.Mathlib.Decide.{dec_lt}
use lalah.Base.Texts.{codes}
use mathlib.Core.Logic.{◌⊎◌}

-- `char::encode_utf16`: one unit, or a surrogate pair.
unfoldable encode_char : ℕ → List ℕ
encode_char c =
    if ltb c 0x1_0000
    then c ∷ []
    else (0xD800 + (c - 0x1_0000) / 0x400) ∷ (0xDC00 + (c - 0x1_0000) % 0x400) ∷ []

unfoldable encode_utf16 : List ℕ → List ℕ
unfolding encode_char
encode_utf16 [] = []
encode_utf16 (c ∷ cs) = encode_char c ++ encode_utf16 cs

unfoldable wide : String → List ℕ
unfolding encode_utf16
wide s = encode_utf16 (codes s) ++ 0 ∷ []

-- What is behind a `PCWSTR`: the units before the first NUL. Without one the reader leaves the buffer.
unfoldable pcwstr : List ℕ → Option (List ℕ)
pcwstr [] = none
pcwstr (u ∷ us) = let rest = pcwstr us in if u == 0 then some [] else rest >>= λ r. some (u ∷ r)

-- The characters of UTF-16 units.
abbrev is_high : ℕ → Bool
is_high u = leb 0xD800 u && ltb u 0xDC00

abbrev is_low : ℕ → Bool
is_low u = leb 0xDC00 u && ltb u 0xE000

unfoldable decode_utf16 : List ℕ → List ℕ
decode_utf16 [] = []
decode_utf16 (u ∷ []) = u ∷ []
decode_utf16 (u ∷ v ∷ us) =
    let pair = decode_utf16 us in
    let single = decode_utf16 (v ∷ us) in
    if is_high u && is_low v
    then (0x1_0000 + (u - 0xD800) * 0x400 + (v - 0xDC00)) ∷ pair
    else u ∷ single

-- The characters before the first NUL.
abbrev before_nul : List ℕ → List ℕ
before_nul [] = []
before_nul (c ∷ cs) = if c == 0 then [] else c ∷ before_nul cs

scalar_bounds : (n : ℕ) → IsScalar n → (n < 0xD800) ⊎ ((0xDFFF < n) × (n < 0x11_0000))
scalar_bounds n p = ground arith

decode-single :
    (c : ℕ)
    → (c < 0xD800) ⊎ ((0xDFFF < c) × (c < 0x11_0000))
    → (us : List ℕ) → decode_utf16 (c ∷ us) ≡ c ∷ decode_utf16 us
unfolding decode_utf16
decode-single c h [] = refl
decode-single c h (v ∷ us) = ground arith

decode-pair :
    (c : ℕ)
    → 0x1_0000 ≤ c
    → c < 0x11_0000
    → (us : List ℕ)
    → decode_utf16 ((0xD800 + (c - 0x1_0000) / 0x400) ∷ (0xDC00 + (c - 0x1_0000) % 0x400) ∷ us)
      ≡ c ∷ decode_utf16 us
unfolding decode_utf16
decode-pair c big small us =
    let h : is_high (0xD800 + (c - 0x1_0000) / 0x400) ≡ true = ground arith in
    let l : is_low (0xDC00 + (c - 0x1_0000) % 0x400) ≡ true = ground arith in
    rw (h, l) (ap (λ (x : ℕ). x ∷ decode_utf16 us) (omega arith))

decode-char :
    (c : ℕ)
    → (c < 0xD800) ⊎ ((0xDFFF < c) × (c < 0x11_0000))
    → (us : List ℕ) → decode_utf16 (encode_char c ++ us) ≡ c ∷ decode_utf16 us
unfolding encode_char
decode-char c h us = elim (dec_lt c 0x1_0000) [
  | yes small ↦ rw (lt→ltb c 0x1_0000 small) (decode-single c h us)
  | no big ↦ rw (le→ltb c 0x1_0000 (omega arith)) (decode-pair c (omega arith) (ground arith) us)
]

-- A character that is not NUL stands before what the reader finds behind it.
pcwstr-char :
    (c : ℕ)
    → 0 < c
    → (us : List ℕ) → pcwstr (encode_char c ++ us) ≡ (pcwstr us >>= λ r. some (encode_char c ++ r))
unfolding encode_char pcwstr
pcwstr-char c some_char us = ground arith

pcwstr-nul : (us : List ℕ) → pcwstr (encode_char 0 ++ us) ≡ some []
unfolding encode_char pcwstr
pcwstr-nul us = refl

read-cons :
    (c : ℕ)
    → (c < 0xD800) ⊎ ((0xDFFF < c) × (c < 0x11_0000))
    → (cs units us : List ℕ) → pcwstr units ≡ some us
    → decode_utf16 us ≡ before_nul cs
    → (us' : List ℕ) × (pcwstr (encode_char c ++ units) ≡ some us')
      × (decode_utf16 us' ≡ before_nul (c ∷ cs))
unfolding decode_utf16
read-cons zero h cs units us e f = ([], pcwstr-nul units, refl)
read-cons (suc c) h cs units us e f = (
  encode_char (suc c) ++ us,
  pcwstr-char (suc c) (omega arith) units ∙ rw e refl,
  let some_char : (suc c == 0) ≡ false = ground arith in
      rw some_char (decode-char (suc c) h us ∙ ap (λ (ds : List ℕ). suc c ∷ ds) f),
)

-- What a reader finds behind the pointer is the text up to its first NUL, for every text.
read_wide :
    (s : String)
    → (us : List ℕ) × (pcwstr (wide s) ≡ some us) × (decode_utf16 us ≡ before_nul (codes s))
unfolding wide encode_utf16 pcwstr decode_utf16
read_wide String.[] = ([], refl, refl)
read_wide (String.◌∷◌ (char n p) s) =
    let (us, e, f) = read_wide s in
    let (us', e', f') = read-cons n (scalar_bounds n p) (codes s) (wide s) us e f in
    (us', ap pcwstr (append_assoc (encode_char n) (encode_utf16 (codes s)) (0 ∷ [])) ∙ e', f')
