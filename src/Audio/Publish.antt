-- ===== src/Audio/Publish.antt =====
-- The stores of `init` and `set_format` and the loads of `attach` and `format`
-- (packages/shared/src/lib.rs), one by one, so that the loads of one process can fall between the
-- stores of the other. Stores take effect in program order, and so do loads.
pub mod Gates
use Prim.Native.String.{String}
use lalah.Base.{
  ℕ, ◌-◌, not, ◌||◌, Option, none, some, List, [], ◌∷◌, ltb, leb, ◌==◌, if◌then◌else◌, ◌>>=◌,
  Result, ok, err, as_u32,
}
use lalah.Base.Bits.{is_power_of_two}
use lalah.Audio.Header.{
  ShmHeader, AudioFormat, from_u32, to_u32, size_of_header, shm_magic, shm_version,
}
use lalah.Audio.Ring.{ShmAudioBuffer}

abbrev pub init_stores : (cap : ℕ) → List (ShmHeader → ShmHeader)
init_stores cap =
    (λ (h : ShmHeader). record h { header_size = as_u32 size_of_header })
    ∷ (λ (h : ShmHeader). record h { capacity = cap })
    ∷ (λ (h : ShmHeader). record h { sample_rate = 0 })
    ∷ (λ (h : ShmHeader). record h { channels = 0 })
    ∷ (λ (h : ShmHeader). record h { format = 0 })
    ∷ (λ (h : ShmHeader). record h { frame_bytes = 0 })
    ∷ (λ (h : ShmHeader). record h { head = 0 })
    ∷ (λ (h : ShmHeader). record h { tail = 0 })
    ∷ (λ (h : ShmHeader). record h { seq = 0 })
    ∷ (λ (h : ShmHeader). record h { version = shm_version })
    ∷ (λ (h : ShmHeader). record h { magic = shm_magic })
    ∷ []

abbrev pub format_stores : AudioFormat → List (ShmHeader → ShmHeader)
format_stores fmt =
    (λ (h : ShmHeader). record h { sample_rate = fmt.sample_rate })
    ∷ (λ (h : ShmHeader). record h { channels = fmt.channels })
    ∷ (λ (h : ShmHeader). record h { format = to_u32 fmt.format })
    ∷ (λ (h : ShmHeader). record h { frame_bytes = fmt.frame_bytes })
    ∷ []

-- `attach`, with the header as it is at each of its four loads.
unfoldable pub attach_loads :
    (total_size : ℕ) (magic_at version_at size_at capacity_at : ShmHeader)
    → Result ShmAudioBuffer String
attach_loads total_size magic_at version_at size_at capacity_at =
    if leb total_size size_of_header
    then err "region smaller than header"
    else if not (magic_at.magic == shm_magic)
    then err "bad magic (region not initialized yet)"
    else if not (version_at.version == shm_version)
    then err "version mismatch"
    else if not (size_at.header_size == size_of_header)
    then err "ABI/header_size mismatch"
    else if cap == 0 || not (is_power_of_two cap) || ltb (total_size - size_of_header) cap
    then err "bad capacity"
    else ok (record { cap = cap })
  where
    cap : ℕ
    cap = capacity_at.capacity

-- `format`, with the header as it is at each of its four loads.
unfoldable pub format_loads :
    (gate_at format_at rate_at channels_at : ShmHeader) → Option AudioFormat
format_loads gate_at format_at rate_at channels_at =
    if gate_at.frame_bytes == 0
    then none
    else from_u32 format_at.format >>= λ f. some (record {
      sample_rate = rate_at.sample_rate;
      channels = channels_at.channels;
      format = f;
      frame_bytes = gate_at.frame_bytes;
    })
