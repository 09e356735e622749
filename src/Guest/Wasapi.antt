-- ===== src/Guest/Wasapi.antt =====
-- `capture_exclusive` of packages/lalah-vm/src/wasapi.rs: the probe for a format, and the capture
-- loop. Windows is a parameter: which formats the endpoint supports, and the packets it delivers.
pub mod Formats
pub mod Capture
pub mod Words
pub mod Exclusive
use lalah.Base.{
  ℕ, ◌+◌, ◌*◌, ◌/◌, Bool, true, false, Option, none, some, List, [], ◌∷◌, replicate, tabulate, leb,
  ◌==◌, not, if◌then◌else◌, ◌>>=◌,
}
use lalah.Audio.Header.{SampleFormat, AudioFormat}
use lalah.Audio.Ring.{Shm, ShmAudioBuffer, push_overwrite}

abbrev pub wave_format_pcm_tag : ℕ
wave_format_pcm_tag = 1

abbrev pub wave_format_ieee_float_tag : ℕ
wave_format_ieee_float_tag = 3

-- `WAVE_FORMAT_EXTENSIBLE` of the Windows headers.
abbrev pub wave_format_extensible : ℕ
wave_format_extensible = 0xFFFE

pub record Candidate : Type 0 where
  pub rate : ℕ
  pub channels : ℕ
  pub bits : ℕ
  pub is_float : Bool
  pub extensible : Bool

-- `WAVEFORMATEXTENSIBLE`. Whether its `SubFormat` is IEEE float stands for the GUID, which is PCM
-- otherwise.
pub record WaveFormat : Type 0 where
  pub format_tag : ℕ
  pub channels : ℕ
  pub samples_per_sec : ℕ
  pub avg_bytes_per_sec : ℕ
  pub block_align : ℕ
  pub bits_per_sample : ℕ
  pub cb_size : ℕ
  pub valid_bits_per_sample : ℕ
  pub channel_mask : ℕ
  pub sub_float : Bool

-- The products stay within their words for every candidate.
unfoldable pub make_wfx : Candidate → WaveFormat
make_wfx c = record {
  format_tag =
      if c.extensible
      then wave_format_extensible
      else (if c.is_float then wave_format_ieee_float_tag else wave_format_pcm_tag);
  channels = c.channels;
  samples_per_sec = c.rate;
  avg_bytes_per_sec = c.rate * (c.channels * (c.bits / 8));
  block_align = c.channels * (c.bits / 8);
  bits_per_sample = c.bits;
  cb_size = if c.extensible then 22 else 0;
  valid_bits_per_sample = c.bits;
  channel_mask = if leb 2 c.channels then 3 else 4;
  sub_float = c.is_float;
}

-- Whether the samples are floats, for the tags that are carried.
abbrev pub float_of : WaveFormat → Option Bool
float_of w =
    if w.format_tag == wave_format_ieee_float_tag
    then some true
    else if w.format_tag == wave_format_pcm_tag
    then some false
    else if w.format_tag == wave_format_extensible
    then some w.sub_float
    else none

abbrev pub sample_of : (is_float : Bool) (bits : ℕ) → Option SampleFormat
sample_of true bits = if not (bits == 32) then none else some SampleFormat.f32_le
sample_of false bits =
    if bits == 16
    then some SampleFormat.s16_le
    else if bits == 32
    then some SampleFormat.s32_le
    else none

unfoldable pub parse_audio_format : WaveFormat → Option AudioFormat
parse_audio_format w = float_of w >>= λ is_float. sample_of is_float w.bits_per_sample >>= λ format.
    some (record {
      sample_rate = w.samples_per_sec;
      channels = w.channels;
      format = format;
      frame_bytes = w.block_align;
    })

abbrev pub base_formats : List (ℕ × ℕ × ℕ × Bool)
base_formats =
    (48_000, 2, 16, false)
    ∷ (44_100, 2, 16, false)
    ∷ (48_000, 1, 16, false)
    ∷ (48_000, 2, 32, false)
    ∷ (48_000, 2, 32, true)
    ∷ []

abbrev pub candidate : ℕ × ℕ × ℕ × Bool → Bool → Candidate
candidate b extensible = record {
  rate = b.0;
  channels = b.1;
  bits = b.2;
  is_float = b.3;
  extensible = extensible;
}

-- The probe: the first format that the endpoint supports, of each base format the plain form first.
unfoldable pub probe : (supported : WaveFormat → Bool) → List (ℕ × ℕ × ℕ × Bool) → Option WaveFormat
probe supported [] = none
probe supported (b ∷ bs) =
    let rest = probe supported bs in
    if supported (make_wfx (candidate b false))
    then some (make_wfx (candidate b false))
    else if supported (make_wfx (candidate b true))
    then some (make_wfx (candidate b true))
    else rest

-- The format that is published, if any; without one the capture ends with an error.
unfoldable pub negotiate : (supported : WaveFormat → Bool) → Option AudioFormat
negotiate supported = probe supported base_formats >>= λ w. parse_audio_format w

-- A packet of the endpoint: its frames, its flag, and the bytes behind its data pointer, which are
-- undefined if it is flagged silent.
pub record Packet : Type 0 where
  pub frames : ℕ
  pub silent : Bool
  pub cell : ℕ → ℕ

-- The slice that is pushed for a packet.
abbrev pub packet_bytes : (block_align : ℕ) → Packet → List ℕ
packet_bytes block_align p =
    if p.silent
    then replicate (p.frames * block_align) 0
    else tabulate p.cell 0 (p.frames * block_align)

-- How the draining of the queue ends: no packet is left, or a call fails.
pub data Ending : Type 0 where
  empty : Ending
  fails : (hresult : ℕ) → Ending

-- What one wait answers: the event, with the packets that are queued and how the draining ends if all
-- of them have frames, or anything else.
pub data Wake : Type 0 where
  signalled : List Packet → Ending → Wake
  other : Wake

-- Pushes the queued packets in order, up to one without frames, behind which no call is made. The
-- region, and how the draining has ended.
unfoldable pub drain :
    ShmAudioBuffer → (block_align : ℕ) → Shm → List Packet → Ending → Option (Shm × Ending)
drain me block_align shm [] end = some (shm, end)
drain me block_align shm (p ∷ ps) end =
    if p.frames == 0
    then some (shm, empty)
    else (push_overwrite me shm (packet_bytes block_align p) >>= λ shm'.
        drain me block_align shm' ps end)

-- How the capture ends, or that it still waits behind the last wake.
pub data Stop : Type 0 where
  clean : Stop
  failed : (hresult : ℕ) → Stop
  waiting : Stop

-- Back to the wait, or out of the loop with the error.
abbrev pub go_on : Shm × Ending → (Shm → Option (Shm × Stop)) → Option (Shm × Stop)
go_on (shm, empty) again = again shm
go_on (shm, fails hresult) again = some (shm, failed hresult)

-- The loop over the wakes in order.
unfoldable pub capture_loop :
    ShmAudioBuffer → (block_align : ℕ) → Shm → List Wake → Option (Shm × Stop)
unfolding drain
capture_loop me block_align shm [] = some (shm, waiting)
capture_loop me block_align shm (other ∷ ws) = some (shm, clean)
capture_loop me block_align shm (signalled ps end ∷ ws) =
    drain me block_align shm ps end >>= λ r. go_on r (λ shm'. capture_loop me block_align shm' ws)
