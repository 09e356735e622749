-- ===== src/Guest/Wasapi/Formats.antt =====
-- The format negotiation (wasapi.rs): the probe and the parser together.
use lalah.Base.{
  ℕ, ◌*◌, ◌<◌, ◌≡◌, ◌⊎◌, inl, inr, refl, Bool, true, false, none, some, List, [], ◌∷◌, arith,
  Bool-cases, ◌==◌, if◌then◌else◌,
}
use lalah.Audio.Header.{SampleFormat, AudioFormat, bytes_per_sample}
use native.Mathlib.Nat.{mul-pos}
use lalah.Guest.Wasapi.{
  Candidate, WaveFormat, make_wfx, parse_audio_format, probe, negotiate, candidate, base_formats,
}

-- The format that a candidate stands for.
abbrev pub sample_format : Candidate → SampleFormat
sample_format c =
    if c.is_float
    then SampleFormat.f32_le
    else if c.bits == 16
    then SampleFormat.s16_le
    else SampleFormat.s32_le

-- The sizes that are probed: 16 bits, or 32 bits, and floats of 32 bits.
pub record IsCarried (c : Candidate) : Type 0 where
  pub sized : (c.bits ≡ 16) ⊎ (c.bits ≡ 32)
  pub float_sized : c.is_float ≡ true → c.bits ≡ 32

-- For a candidate of 16 or 32 bits, floats of 32, in plain and in extensible form: what is parsed
-- back from its blob is the candidate, with its rate, its channels, its sample format, and frames
-- of one sample for each channel.
parse-make_wfx :
    (c : Candidate)
    → IsCarried c
    → parse_audio_format (make_wfx c)
      ≡ some (record {
        sample_rate = c.rate;
        channels = c.channels;
        format = sample_format c;
        frame_bytes = c.channels * bytes_per_sample (sample_format c);
      })
unfolding parse_audio_format make_wfx bytes_per_sample
parse-make_wfx c h = elim (Bool-cases c.is_float) [
  | inl t ↦ elim (Bool-cases c.extensible) [
    | inl u ↦ rw (t, u, h.float_sized t) refl
    | inr u ↦ rw (t, u, h.float_sized t) refl
  ]
  | inr f ↦ elim h.sized [
    | inl s ↦ elim (Bool-cases c.extensible) [
      | inl u ↦ rw (f, u, s) refl
      | inr u ↦ rw (f, u, s) refl
    ]
    | inr s ↦ elim (Bool-cases c.extensible) [
      | inl u ↦ rw (f, u, s) refl
      | inr u ↦ rw (f, u, s) refl
    ]
  ]
]

-- Every form of every base format is a size that is carried, with a channel at least.
abbrev pub AreCarried : List (ℕ × ℕ × ℕ × Bool) → Type 0
AreCarried [] = Unit {0}
AreCarried (b ∷ bs) =
    ((extensible : Bool) → IsCarried (candidate b extensible)) × (0 < b.1) × AreCarried bs

-- The endpoint refuses both forms of every base format.
abbrev pub AreRefused : (WaveFormat → Bool) → List (ℕ × ℕ × ℕ × Bool) → Type 0
AreRefused supported [] = Unit {0}
AreRefused supported (b ∷ bs) =
    (supported (make_wfx (candidate b false)) ≡ false)
    × (supported (make_wfx (candidate b true)) ≡ false)
    × AreRefused supported bs

data Probed (supported : WaveFormat → Bool) (bs : List (ℕ × ℕ × ℕ × Bool)) : Type 0 where
  chosen :
      (c : Candidate)
      → probe supported bs ≡ some (make_wfx c)
      → supported (make_wfx c) ≡ true
      → IsCarried c
      → 0 < c.channels
      → Probed supported bs
  nothing : probe supported bs ≡ none → AreRefused supported bs → Probed supported bs

probe-Probed :
    (supported : WaveFormat → Bool) (bs : List (ℕ × ℕ × ℕ × Bool))
    → AreCarried bs
    → Probed supported bs
unfolding probe
probe-Probed supported [] h = nothing refl tt
probe-Probed supported (b ∷ bs) h = elim (Bool-cases (supported (make_wfx (candidate b false)))) [
  | inl t ↦ chosen (candidate b false) (rw t refl) t (h.0 false) h.1
  | inr f ↦ elim (Bool-cases (supported (make_wfx (candidate b true)))) [
    | inl t ↦ chosen (candidate b true) (rw (f, t) refl) t (h.0 true) h.1
    | inr g ↦ elim (probe-Probed supported bs h.2) [
      | chosen c e t k p ↦ chosen c (rw (f, g) e) t k p
      | nothing e r ↦ nothing (rw (f, g) e) (f, g, r)
    ]
  ]
]

base_formats-AreCarried : AreCarried base_formats
base_formats-AreCarried = (
  short,
  omega arith,
  (short, omega arith, (short, omega arith, (long, omega arith, (long, omega arith, tt)))),
)
  where
    short :
        {rate channels : ℕ} (extensible : Bool)
        → IsCarried (candidate (rate, channels, 16, false) extensible)
    short extensible = record { sized = inl refl; float_sized = λ e. absurd (ground arith) }

    long :
        {rate channels : ℕ} {is_float : Bool} (extensible : Bool)
        → IsCarried (candidate (rate, channels, 32, is_float) extensible)
    long extensible = record { sized = inr refl; float_sized = λ e. refl }

-- What the negotiation comes to.
pub data Negotiated (supported : WaveFormat → Bool) : Type 0 where
  agreed :
      (fmt : AudioFormat)
      → negotiate supported ≡ some fmt
      → fmt.frame_bytes ≡ fmt.channels * bytes_per_sample fmt.format
      → 0 < fmt.frame_bytes
      → Negotiated supported
  refused : negotiate supported ≡ none → AreRefused supported base_formats → Negotiated supported

sample_pos : (f : SampleFormat) → 1 < bytes_per_sample f
unfolding bytes_per_sample
sample_pos SampleFormat.s16_le = omega arith
sample_pos SampleFormat.s32_le = omega arith
sample_pos SampleFormat.f32_le = omega arith

-- Whatever the endpoint supports, a format is published unless it refuses all ten candidates.
-- What is published has frames of one sample for each channel, never of size 0, so the host's
-- gate lets it through.
pub negotiate-Negotiated : (supported : WaveFormat → Bool) → Negotiated supported
unfolding negotiate
negotiate-Negotiated supported =
    elim (probe-Probed supported base_formats base_formats-AreCarried) [
      | chosen c e t k p ↦
          agreed
            (record {
              sample_rate = c.rate;
              channels = c.channels;
              format = sample_format c;
              frame_bytes = c.channels * bytes_per_sample (sample_format c);
            })
            (rw e (parse-make_wfx c k)) refl
            (mul-pos p (omega (arith, sample_pos (sample_format c))))
      | nothing e r ↦ refused (rw e refl) r
    ]
