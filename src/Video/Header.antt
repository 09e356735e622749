-- ===== src/Video/Header.antt =====
-- `VideoFormat`, `ShmVideoHeader` and the split of the mapping, of packages/shared/src/lib.rs.
use lalah.Base.Layout.{Field, atomic_u64, atomic_u32, padding}
use lalah.Base.{List, [], ◌∷◌, ℕ, ◌+◌, ◌-◌, ◌*◌, ◌%◌, Option, none, some, leb, if◌then◌else◌}

-- 16 MiB.
abbrev pub audio_region_bytes : ℕ
audio_region_bytes = 16 * 1024 * 1024

abbrev pub video_magic : ℕ
video_magic = 0x4C41_4C41_5648_4431

abbrev pub video_version : ℕ
video_version = 1

abbrev pub video_min_slots : ℕ
video_min_slots = 3

pub record VideoFormat : Type 0 where
  pub width : ℕ
  pub height : ℕ
  pub stride : ℕ
  pub fourcc : ℕ
  pub frame_size : ℕ

-- The atomic fields; the padding carries nothing.
pub record ShmVideoHeader : Type 0 where
  pub magic : ℕ
  pub version : ℕ
  pub header_size : ℕ
  pub width : ℕ
  pub height : ℕ
  pub stride : ℕ
  pub fourcc : ℕ
  pub frame_size : ℕ
  pub slot_count : ℕ
  pub frame_seq : ℕ

-- The fields in the order of the struct, the padding included.
abbrev pub shm_video_header_fields : List Field
shm_video_header_fields =
    atomic_u64
    ∷ atomic_u32
    ∷ atomic_u32
    ∷ atomic_u32
    ∷ atomic_u32
    ∷ atomic_u32
    ∷ atomic_u32
    ∷ atomic_u32
    ∷ atomic_u32
    ∷ padding 24
    ∷ atomic_u64
    ∷ padding 56
    ∷ []

-- `size_of::<ShmVideoHeader>()`, asserted by the source at compile time.
abbrev pub size_of_video_header : ℕ
size_of_video_header = 128

-- `(n + 63) & !63` clears the six low bits.
unfoldable pub align_up_64 : ℕ → ℕ
align_up_64 n = (n + 63) - (n + 63) % 64

-- The offset and the length of the video sub-region in a mapping of `total` bytes.
unfoldable pub video_region : ℕ → Option (ℕ × ℕ)
video_region total =
    if leb total (audio_region_bytes + size_of_video_header)
    then none
    else some (audio_region_bytes, total - audio_region_bytes)
