-- ===== src/Host/Startup.antt =====
-- `run` of packages/lalah-host/src/main.rs up to the playback loop: how the host cuts the mapping in
-- two and prepares both parts. `none` is a panic. The two parts are views of one mapping, so each
-- has its own header and payload here.
pub mod Layout
pub mod Parts
use Prim.Native.String.{String}
use lalah.Base.{
  ℕ, ◌+◌, ◌-◌, ◌*◌, ◌/◌, ◌%◌, ◌^◌, Bool, Option, none, some, leb, ◌==◌, if◌then◌else◌, ◌>>=◌,
  Result, ok, err, u64_mod,
}
use lalah.Base.Zeros.{leading_zeros}
use lalah.Audio.Header.{AudioFormat, size_of_header}
use lalah.Audio.Ring.{Shm, ShmAudioBuffer, init as init_audio}
use lalah.Video.Header.{audio_region_bytes, video_region}
use lalah.Video.Ring.{VideoShm, ShmVideoBuffer, init as init_video}

-- Largest power of two that is at most `n`.
unfoldable pub prev_power_of_two : ℕ → ℕ
prev_power_of_two n = if n == 0 then 0 else 2 ^ (64 - 1 - leading_zeros 64 n)

-- The ring capacity for a mapping of `total` bytes, or why the host stops.
unfoldable pub ring_capacity : (total : ℕ) (video : Bool) → Result ℕ String
ring_capacity total video =
    if leb total size_of_header
    then err "shm region too small for header"
    else if video
    then (if leb total audio_region_bytes
        then err "--video-fifo set but shm region <= audio region; grow QEMU size="
        else ok (prev_power_of_two (audio_region_bytes - size_of_header)))
    else ok (prev_power_of_two (total - size_of_header))

-- The frame ring that the video thread gets: where it lies in the mapping, its handle and its region.
pub record VideoPart : Type 0 where
  pub base : ℕ
  pub len : ℕ
  pub handle : ShmVideoBuffer
  pub shm : VideoShm

-- Prepares the sub-region that the split of the mapping gives, if it gives one.
abbrev pub start_video_at : VideoShm → Option (ℕ × ℕ) → Option (Result VideoPart String)
start_video_at vshm none =
    some (err "--video-fifo set but shm region has no room past the audio region; grow QEMU size=")
start_video_at vshm (some region) = init_video vshm region.1 >>= λ r.
    some (ok (record { base = region.0; len = region.1; handle = r.0; shm = r.1 }))

unfoldable pub start_video : (total : ℕ) → VideoShm → Option (Result VideoPart String)
start_video total vshm = start_video_at vshm (video_region total)

-- What stands when the host starts to wait for the format.
pub record Started : Type 0 where
  pub ring : ShmAudioBuffer
  pub shm : Shm
  pub video : Option VideoPart

-- The error of the frame ring is the host's.
abbrev pub with_video : ShmAudioBuffer × Shm → Result VideoPart String → Result Started String
with_video s (ok v) = ok (record { ring = s.0; shm = s.1; video = some v })
with_video s (err e) = err e

-- Prepares the ring of the capacity that was chosen, and the frame ring.
abbrev pub start_at :
    (total : ℕ) (video : Bool) → Shm → VideoShm → Result ℕ String → Option (Result Started String)
start_at total video shm vshm (err e) = some (err e)
start_at total video shm vshm (ok size) = init_audio shm total size >>= λ s.
    (if video
      then (start_video total vshm >>= λ r. some (with_video s r))
      else some (ok (record { ring = s.0; shm = s.1; video = none })))

unfoldable pub start : (total : ℕ) (video : Bool) → Shm → VideoShm → Option (Result Started String)
start total video shm vshm = start_at total video shm vshm (ring_capacity total video)

-- The latency budget in bytes, in `u64` arithmetic.
unfoldable pub latency_bytes : (latency_ms : ℕ) → AudioFormat → ℕ
latency_bytes latency_ms fmt = (latency_ms * fmt.sample_rate * fmt.frame_bytes) % u64_mod / 1000
