-- ===== src/Guest/Tests.antt =====
-- Runs of the guest, and the theorems at concrete inputs.
mod KeepAlive
mod Devices
mod Exclusive
mod Start
mod Graph
mod MediaType
use lalah.Base.{
  none, ◌≢◌, ◌+◌, ◌*◌, ◌≡◌, inr, refl, Bool, true, false, List, [], ◌∷◌, some, arith, ◌==◌,
}
use lalah.Audio.Header.{SampleFormat, bytes_per_sample, shm_magic}
use lalah.Audio.Ring.{Shm, ShmAudioBuffer}
use lalah.Guest.Wasapi.{
  Candidate, WaveFormat, make_wfx, parse_audio_format, negotiate, probe, Wake, signalled, other,
  fails, clean, capture_loop,
}
use lalah.Audio.Ring.Stream.{IsValid, Holds}
use lalah.Video.Header.{VideoFormat}
use lalah.Guest.Dshow.{BitmapInfo, parse_video_format, parse_wfx, audio_buffer_cb}
use lalah.Guest.Dshow.Formats.{
  IsGeometry, parse_video_format-IsGeometry, parse_wfx-parse_audio_format,
}
use lalah.Guest.Dshow.Grabber.{audio_buffer_cb-Holds}
use Prim.Native.String.{String}
use lalah.Guest.Args.{Args, defaults, parse_from, parse_args}
use lalah.Guest.Args.Options.{IsConsistent, parse_args-IsConsistent}
use lalah.Guest.Wasapi.Formats.{Negotiated, negotiate-Negotiated}
use lalah.Guest.Wasapi.Capture.{IsCapturing, capture_loop-IsCapturing}

abbrev pub float_stereo : Candidate
float_stereo = record { rate = 48_000; channels = 2; bits = 32; is_float = true; extensible = true }

-- A progressive picture of 2 by 2, top-down, without its size.
abbrev pub small_picture : BitmapInfo
small_picture = record {
  width = 2;
  height = 0xFFFF_FFFE;
  bit_count = 16;
  compression = 0x3259_5559;
  size_image = 0;
}

abbrev small_format : VideoFormat
small_format = record { width = 2; height = 2; stride = 4; fourcc = 0x3259_5559; frame_size = 8 }

parse_video_format-IsGeometry_example : IsGeometry small_format
unfolding parse_video_format
parse_video_format-IsGeometry_example =
    parse_video_format-IsGeometry
      (record { is_video_info = true; cb_format = 88; block = some small_picture }) small_format
      refl

parse_wfx-parse_audio_format_example :
    parse_wfx
      (record { is_wave_format = true; cb_format = 40; block = some (make_wfx float_stereo) })
    ≡ parse_audio_format (make_wfx float_stereo)
parse_wfx-parse_audio_format_example =
    parse_wfx-parse_audio_format 40 (make_wfx float_stereo) (omega arith)

-- An endpoint that supports 44.1 kHz only.
abbrev pub cd_only : WaveFormat → Bool
cd_only w = w.samples_per_sec == 44_100

negotiate_runs :
    negotiate cd_only
    ≡ some (record {
      sample_rate = 44_100;
      channels = 2;
      format = SampleFormat.s16_le;
      frame_bytes = 4;
    })
unfolding negotiate probe make_wfx parse_audio_format
negotiate_runs = refl

negotiate-Negotiated_example : Negotiated cd_only
negotiate-Negotiated_example = negotiate-Negotiated cd_only

-- A fresh ring of 8 bytes for frames of 2.
abbrev pub fresh : Shm
fresh = record {
  hdr = record {
    magic = shm_magic;
    version = 1;
    header_size = 192;
    capacity = 8;
    sample_rate = 48_000;
    channels = 1;
    format = 0;
    frame_bytes = 2;
    tail = 0;
    seq = 0;
    head = 0;
  };
  payload = record { size = 8; cell = λ _. 0 };
}

abbrev pub ring : ShmAudioBuffer
ring = record { cap = 8 }

-- One frame of sound, a silent frame, a packet without frames, behind which no call is made, and then a
-- stall.
abbrev pub wakes : List Wake
wakes =
    signalled
      (record { frames = 1; silent = false; cell = λ i. i + 5 }
        ∷ record { frames = 1; silent = true; cell = λ i. 9 }
        ∷ record { frames = 0; silent = false; cell = λ i. 9 }
        ∷ [])
      (fails 7)
    ∷ other
    ∷ []

fresh-IsCapturing : IsCapturing ring 2 fresh []
fresh-IsCapturing = record {
  valid = record { log_cap = 3; cap_pow = refl; fits = omega arith };
  holds = record { count = refl; small = omega arith; kept = λ p lt. absurd (omega arith) };
  aligned = record { tail_at = refl; head_at = refl };
  same_frame = refl;
  whole = refl;
}

capture_loop-IsCapturing_example :
    (shm' : Shm) × (capture_loop ring 2 fresh wakes ≡ some (shm', clean))
    × IsCapturing ring 2 shm' (5 ∷ 6 ∷ 0 ∷ 0 ∷ [])
capture_loop-IsCapturing_example = capture_loop-IsCapturing wakes fresh-IsCapturing (omega arith)

audio_buffer_cb-Holds_example :
    (shm' : Shm) × (audio_buffer_cb ring fresh (some (λ i. i + 5)) 4 true ≡ some shm')
    × IsValid ring shm'
    × Holds ring shm' (5 ∷ 6 ∷ 7 ∷ 8 ∷ [])
audio_buffer_cb-Holds_example =
    audio_buffer_cb-Holds {me = ring} {shm = fresh} {stream = []}
      (record { log_cap = 3; cap_pow = refl; fits = omega arith })
      (record { count = refl; small = omega arith; kept = λ p lt. absurd (omega arith) })
      (some (λ i. i + 5)) 4 true (omega arith)

-- `--video-passthrough --video-device GC573`.
abbrev pub typed : List String
typed = "--video-passthrough" ∷ "--video-device" ∷ "GC573" ∷ []

abbrev pub understood : Args
understood = record defaults {
  ds_audio = true;
  video_passthrough = true;
  video_keepalive = true;
  video_device = some "GC573";
}

no_device : parse_args [] ≡ none
unfolding parse_args parse_from
no_device = refl

pub typed_runs : parse_args typed ≡ some understood
unfolding parse_args parse_from
typed_runs = refl

parse_args-IsConsistent_example :
    IsConsistent understood × (understood.ds_audio ≡ false → understood.device_id ≢ "")
parse_args-IsConsistent_example = parse_args-IsConsistent typed understood typed_runs
