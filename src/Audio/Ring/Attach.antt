-- ===== src/Audio/Ring/Attach.antt =====
-- `init`, `attach`, and the gate by which the producer publishes the format.
use lalah.Base.{
  ℕ, ◌+◌, ◌-◌, ◌≤◌, ◌<◌, ◌≡◌, ◌↔◌, ◌⊎◌, List, refl, ap, ◌∙◌, [], none, some, arith, ◌==◌,
  if◌then◌else◌, true, false, ok, u64_mod,
}
use lalah.Base.Bits.{is_power_of_two, is_power_of_two_sound}
use lalah.Audio.Header.{
  SampleFormat, AudioFormat, from_u32, to_u32, size_of_header, shm_magic, shm_version,
}
use lalah.Audio.Ring.{Shm, ShmAudioBuffer, init, attach, set_format, format}
use lalah.Audio.Ring.Stream.{IsValid, Holds}

-- What `attach` demands of the region.
pub record IsAttachable (shm : Shm) (total_size : ℕ) : Type 0 where
  pub room : size_of_header < total_size
  pub is_magic : shm.hdr.magic ≡ shm_magic
  pub is_version : shm.hdr.version ≡ shm_version
  pub is_header_size : shm.hdr.header_size ≡ size_of_header
  pub pow : is_power_of_two shm.hdr.capacity ≡ true
  pub fits : shm.hdr.capacity ≤ total_size - size_of_header

zero-not-pow : is_power_of_two 0 ≡ false
unfolding is_power_of_two
zero-not-pow = refl

-- `attach` accepts exactly the regions that are attachable, with the capacity in the header: long
-- enough, initialized, of the same version and header size, with a capacity that is a power of
-- two and fits.
pub attach_iff :
    (shm : Shm) (total_size : ℕ) (me : ShmAudioBuffer)
    → (attach shm total_size ≡ ok me)
      ↔ (IsAttachable shm total_size × (me ≡ record { cap = shm.hdr.capacity }))
unfolding attach
attach_iff shm total_size me = (ground (arith, zero-not-pow), ground (arith, zero-not-pow))

-- A handle that `attach` returns for a mapping of at most the length that is there, with a
-- capacity that is a word, is valid: its capacity is a power of two, and the ring lies in the
-- mapping.
pub attach-IsValid :
    (shm : Shm) (total_size : ℕ) (me : ShmAudioBuffer)
    → shm.hdr.capacity < u64_mod
    → total_size ≤ size_of_header + shm.payload.size
    → attach shm total_size ≡ ok me
    → IsValid me shm
attach-IsValid shm total_size me word mapped e =
    let (a, c) = (attach_iff shm total_size me).0 e in
    let (k, lt, pow) = is_power_of_two_sound shm.hdr.capacity word a.pow in
    record {
      log_cap = k;
      cap_pow = ap (λ (m : ShmAudioBuffer). m.cap) c ∙ pow;
      fits = rw c (omega (arith, a.fits, a.room));
    }

-- `init` panics exactly where an assertion fails.
pub init_panics :
    (shm : Shm) (total_size cap : ℕ)
    → (init shm total_size cap ≡ none) ↔ (
        (total_size ≤ size_of_header)
        ⊎ (is_power_of_two cap ≡ false)
        ⊎ (total_size - size_of_header < cap))
unfolding init
init_panics shm total_size cap = (ground arith, ground arith)

-- A region as a consumer leaves it for a producer to attach.
pub record Ready (shm : Shm) (total_size : ℕ) (me : ShmAudioBuffer) : Type 0 where
  pub attaches : attach shm total_size ≡ ok me
  pub valid : IsValid me shm
  pub holds : Holds me shm []
  pub quiet : shm.hdr.seq ≡ 0
  pub at_start : shm.hdr.head ≡ 0
  pub unset : format shm ≡ none

pub init-IsAttachable :
    (shm : Shm) (total_size cap : ℕ) {me : ShmAudioBuffer} {shm' : Shm}
    → init shm total_size cap ≡ some (me, shm')
    → IsAttachable shm' total_size
      × (me ≡ record { cap = shm'.hdr.capacity })
      × (shm'.payload ≡ shm.payload)
      × (shm'.hdr.capacity ≡ cap)
unfolding init
init-IsAttachable shm total_size cap e = ground arith

init_counters :
    (shm : Shm) (total_size cap : ℕ) {me : ShmAudioBuffer} {shm' : Shm}
    → init shm total_size cap ≡ some (me, shm')
    → (shm'.hdr.tail ≡ 0) × (shm'.hdr.seq ≡ 0) × (shm'.hdr.head ≡ 0) × (format shm' ≡ none)
unfolding init format
init_counters shm total_size cap e = ground arith

-- A region that `init` has prepared, with a mapping of the length it was told and a capacity that
-- is a word, is ready for the other side: `attach` gives the same handle, which is valid; the
-- stream is empty, no push is under way, and the format is unset.
pub init-Ready :
    (shm : Shm) (total_size cap : ℕ) {me : ShmAudioBuffer} {shm' : Shm}
    → cap < u64_mod
    → total_size ≤ size_of_header + shm.payload.size
    → init shm total_size cap ≡ some (me, shm')
    → Ready shm' total_size me
init-Ready shm total_size cap {me} {shm'} word mapped e =
    let (a, m, same, c) = init-IsAttachable shm total_size cap e in
    let (t, q, h, f) = init_counters shm total_size cap e in
    let at : attach shm' total_size ≡ ok me = (attach_iff shm' total_size me).1 (a, m) in
    record {
      attaches = at;
      valid = attach-IsValid shm' total_size me (rw c word) (rw same mapped) at;
      holds = record { count = t; small = omega arith; kept = λ p lt. absurd (omega arith) };
      quiet = q;
      at_start = h;
      unset = f;
    }

from_u32-to_u32 : (f : SampleFormat) → from_u32 (to_u32 f) ≡ some f
unfolding from_u32 to_u32
from_u32-to_u32 SampleFormat.s16_le = refl
from_u32-to_u32 SampleFormat.s32_le = refl
from_u32-to_u32 SampleFormat.f32_le = refl

-- The gate: what the consumer reads after `set_format` is the published format if its
-- `frame_bytes` is not 0, and nothing otherwise.
pub format-set_format :
    (shm : Shm) (fmt : AudioFormat)
    → format (set_format shm fmt) ≡ (if fmt.frame_bytes == 0 then none else some fmt)
unfolding format set_format
format-set_format shm fmt = rw (from_u32-to_u32 fmt.format)

-- Publishing the format leaves the ring as it is.
pub set_format-Holds :
    {me : ShmAudioBuffer} {shm : Shm} {stream : List ℕ} (fmt : AudioFormat)
    → Holds me shm stream
    → Holds me (set_format shm fmt) stream
unfolding set_format
set_format-Holds fmt h = record { count = h.count; small = h.small; kept = h.kept }
