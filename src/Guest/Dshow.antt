-- ===== src/Guest/Dshow.antt =====
-- packages/lalah-vm/src/dshow.rs: the sample grabber callbacks, and the parsers of the media types that
-- DirectShow has connected. An `i32` is its bit pattern.
pub mod Formats
pub mod Grabber
pub mod Graph
pub mod MediaType
use lalah.Base.{
  ℕ, ◌+◌, ◌-◌, ◌*◌, ◌/◌, ◌^◌, min, Bool, true, false, not, ◌&&◌, ◌||◌, Option, none, some, List,
  tabulate, ltb, ◌==◌, if◌then◌else◌, ◌>>=◌, u32_mod,
}
use lalah.Audio.Header.{SampleFormat, AudioFormat}
use lalah.Audio.Ring.{Shm, ShmAudioBuffer, push_overwrite}
use lalah.Video.Header.{VideoFormat}
use lalah.Video.Ring.{VideoShm, ShmVideoBuffer, push_frame}
use lalah.Guest.Wasapi.{WaveFormat}

-- `len > 0`.
abbrev pub is_positive : ℕ → Bool
is_positive w = ltb 0 w && ltb w (2 ^ 31)

-- `GrabberCb::BufferCB`: the buffer, if its pointer is not null; the length; and whether the lock is
-- taken.
unfoldable pub audio_buffer_cb :
    ShmAudioBuffer → Shm → Option (ℕ → ℕ) → (len : ℕ) → (locked : Bool) → Option Shm
audio_buffer_cb me shm none len locked = some shm
audio_buffer_cb me shm (some cell) len locked =
    if is_positive len && locked then push_overwrite me shm (tabulate cell 0 len) else some shm

-- `VideoGrabberCb::BufferCB`.
unfoldable pub video_buffer_cb :
    ShmVideoBuffer → VideoShm → Option (ℕ → ℕ) → (len : ℕ) → (locked : Bool) → Option VideoShm
video_buffer_cb me shm none len locked = some shm
video_buffer_cb me shm (some cell) len locked =
    if is_positive len && locked then push_frame me shm (tabulate cell 0 len) else some shm

-- `size_of::<WAVEFORMATEX>()` and `size_of::<WAVEFORMATEXTENSIBLE>()` of the Windows headers.
abbrev pub size_of_wave_format : ℕ
size_of_wave_format = 18

abbrev pub size_of_wave_format_extensible : ℕ
size_of_wave_format_extensible = 40

-- An `AM_MEDIA_TYPE` of an audio pin: whether its format type is `FORMAT_WaveFormatEx`, the length of
-- the format block, and the block, if its pointer is not null. What lies behind the block is read only
-- where the length allows it.
pub record AudioMediaType : Type 0 where
  pub is_wave_format : Bool
  pub cb_format : ℕ
  pub block : Option WaveFormat

-- Whether the samples are floats, for the tags that are carried.
abbrev pub wfx_float_of : (cb_format : ℕ) → WaveFormat → Option Bool
wfx_float_of cb_format w =
    if w.format_tag == 3
    then some true
    else if w.format_tag == 1
    then some false
    else if w.format_tag == 0xFFFE
    then (if ltb cb_format size_of_wave_format_extensible then none else some w.sub_float)
    else none

abbrev pub wfx_sample_of : (is_float : Bool) (bits : ℕ) → Option SampleFormat
wfx_sample_of true bits = if not (bits == 32) then none else some SampleFormat.f32_le
wfx_sample_of false bits =
    if bits == 16
    then some SampleFormat.s16_le
    else if bits == 32
    then some SampleFormat.s32_le
    else none

unfoldable pub parse_wfx : AudioMediaType → Option AudioFormat
parse_wfx mt =
    if not mt.is_wave_format || ltb mt.cb_format size_of_wave_format
    then none
    else mt.block >>= λ w. wfx_float_of mt.cb_format w >>= λ is_float.
        wfx_sample_of is_float w.bits_per_sample >>= λ format. some (record {
          sample_rate = w.samples_per_sec;
          channels = w.channels;
          format = format;
          frame_bytes = w.block_align;
        })

-- `size_of::<VIDEOINFOHEADER>()` of the Windows headers.
abbrev pub size_of_video_info : ℕ
size_of_video_info = 88

-- The fields of `BITMAPINFOHEADER` that are read.
pub record BitmapInfo : Type 0 where
  pub width : ℕ
  pub height : ℕ
  pub bit_count : ℕ
  pub compression : ℕ
  pub size_image : ℕ

-- An `AM_MEDIA_TYPE` of a video pin.
pub record VideoMediaType : Type 0 where
  pub is_video_info : Bool
  pub cb_format : ℕ
  pub block : Option BitmapInfo

-- `i32::unsigned_abs` and `u32::saturating_mul`.
abbrev pub unsigned_abs : ℕ → ℕ
unsigned_abs w = if ltb w (2 ^ 31) then w else u32_mod - w

abbrev pub saturating_mul : ℕ → ℕ → ℕ
saturating_mul a b = min (a * b) (u32_mod - 1)

-- The bytes of a frame, derived from the geometry if the source omits them.
abbrev pub image_size : BitmapInfo → ℕ
image_size b =
    if b.size_image == 0
    then saturating_mul (saturating_mul (unsigned_abs b.width) (unsigned_abs b.height)) b.bit_count
      / 8
    else b.size_image

abbrev pub video_format : BitmapInfo → Option VideoFormat
video_format b =
    if unsigned_abs b.width == 0 || unsigned_abs b.height == 0 || image_size b == 0
    then none
    else some (record {
      width = unsigned_abs b.width;
      height = unsigned_abs b.height;
      stride = image_size b / unsigned_abs b.height;
      fourcc = b.compression;
      frame_size = image_size b;
    })

unfoldable pub parse_video_format : VideoMediaType → Option VideoFormat
parse_video_format mt =
    if not mt.is_video_info || ltb mt.cb_format size_of_video_info
    then none
    else mt.block >>= λ b. video_format b
