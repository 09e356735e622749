-- ===== src/Audio/Header.antt =====
-- `ShmHeader`, `SampleFormat` and `AudioFormat` of packages/shared/src/lib.rs.
use lalah.Base.Layout.{Field, atomic_u64, atomic_u32, padding}
use lalah.Base.{List, [], ◌∷◌, ℕ, zero, suc, Option, none, some}

abbrev pub shm_magic : ℕ
shm_magic = 0x4C41_4C41_4853_4D31

abbrev pub shm_version : ℕ
shm_version = 1

pub data SampleFormat : Type 0 where
  s16_le s32_le f32_le : SampleFormat

unfoldable pub from_u32 : ℕ → Option SampleFormat
from_u32 zero = some SampleFormat.s16_le
from_u32 (suc zero) = some SampleFormat.s32_le
from_u32 (suc (suc zero)) = some SampleFormat.f32_le
from_u32 (suc (suc (suc n))) = none

-- `as u32`: the discriminants.
unfoldable pub to_u32 : SampleFormat → ℕ
to_u32 SampleFormat.s16_le = 0
to_u32 SampleFormat.s32_le = 1
to_u32 SampleFormat.f32_le = 2

unfoldable pub bytes_per_sample : SampleFormat → ℕ
bytes_per_sample SampleFormat.s16_le = 2
bytes_per_sample SampleFormat.s32_le = 4
bytes_per_sample SampleFormat.f32_le = 4

pub record AudioFormat : Type 0 where
  pub sample_rate : ℕ
  pub channels : ℕ
  pub format : SampleFormat
  pub frame_bytes : ℕ

-- The atomic fields; the padding carries nothing.
pub record ShmHeader : Type 0 where
  pub magic : ℕ
  pub version : ℕ
  pub header_size : ℕ
  pub capacity : ℕ
  pub sample_rate : ℕ
  pub channels : ℕ
  pub format : ℕ
  pub frame_bytes : ℕ
  pub tail : ℕ
  pub seq : ℕ
  pub head : ℕ

-- The fields in the order of the struct, the padding included.
abbrev pub shm_header_fields : List Field
shm_header_fields =
    atomic_u64
    ∷ atomic_u32
    ∷ atomic_u32
    ∷ atomic_u64
    ∷ atomic_u32
    ∷ atomic_u32
    ∷ atomic_u32
    ∷ atomic_u32
    ∷ padding 24
    ∷ atomic_u64
    ∷ atomic_u64
    ∷ padding 48
    ∷ atomic_u64
    ∷ padding 56
    ∷ []

-- `size_of::<ShmHeader>()`, asserted by the source at compile time.
abbrev pub size_of_header : ℕ
size_of_header = 192
