-- ===== src/Session/Tests.antt =====
-- A session of both processes over a ring of 8 bytes.
use mathlib.Core.Option.{some-injective}
use lalah.Base.{
  ◌+◌, ◌==◌, ◌<◌, ◌≡◌, refl, sym, ap, ◌∙◌, none, some, arith, ok, false, List, [], ◌∷◌, length,
  u64_mod,
}
use lalah.Base.Bits.{is_power_of_two}
use lalah.Memory.{update, write_volatile, volatile_copy_to}
use lalah.Audio.Header.{SampleFormat, AudioFormat, shm_magic, to_u32}
use lalah.Audio.Ring.{
  Shm, ShmAudioBuffer, init, attach, set_format, format, mask, copy_in, push_overwrite, plan,
  read_quantum,
}
use lalah.Guest.Wasapi.{
  make_wfx, parse_audio_format, probe, negotiate, Wake, signalled, other, empty, clean, drain,
  capture_loop,
}
use lalah.Guest.Wasapi.Capture.{captured_all}
use lalah.Guest.Wasapi.Exclusive.{
  EndpointCalls, Session, stopped, initialize_client, capture_exclusive,
}
use lalah.Session.{delivers, session_lem}

abbrev blank : Shm
blank = record {
  hdr = record {
    magic = 0;
    version = 0;
    header_size = 0;
    capacity = 0;
    sample_rate = 0;
    channels = 0;
    format = 0;
    frame_bytes = 0;
    tail = 0;
    seq = 0;
    head = 0;
  };
  payload = record { size = 8; cell = λ _. 0 };
}

abbrev handle : ShmAudioBuffer
handle = record { cap = 8 }

abbrev prepared : Shm
prepared = record blank {
  hdr = record blank.hdr { magic = shm_magic; version = 1; header_size = 192; capacity = 8 };
}

prepares : init blank 200 8 ≡ some (handle, prepared)
unfolding init is_power_of_two
prepares = refl

-- An endpoint that supports 44.1 kHz only, and answers every call.
abbrev endpoint : EndpointCalls
endpoint = record {
  co_initialize = none;
  create_enumerator = none;
  get_device = none;
  activate = none;
  get_device_period = ok 30_000;
  supported = λ w. w.samples_per_sec == 44_100;
  initialize = λ client duration w. none;
  buffer_size = λ client. ok 132;
  activate_again = none;
  aligned_period = λ rate n_frames. 30_000;
  create_event = none;
  set_event_handle = none;
  get_buffer_size = none;
  get_service = none;
  start = none;
  not_aligned = 25;
  unsupported_format = 8;
}

abbrev cd : AudioFormat
cd = record { sample_rate = 44_100; channels = 2; format = SampleFormat.s16_le; frame_bytes = 4 }

-- One frame, and then a stall.
abbrev wakes : List Wake
wakes = signalled (record { frames = 1; silent = false; cell = λ i. i + 5 } ∷ []) empty ∷ other ∷ []

abbrev played : Session
played = record {
  shm = record {
    hdr = record prepared.hdr {
      sample_rate = 44_100;
      channels = 2;
      format = 0;
      frame_bytes = 4;
      tail = 4;
      seq = 2;
    };
    payload = record {
      size = 8;
      cell = update (update (update (update (λ _. 0) 0 5) 1 6) 2 7) 3 8;
    };
  };
  exit = stopped clean;
  event_open = false;
  streaming = false;
}

negotiates : negotiate endpoint.supported ≡ some cd
unfolding negotiate probe make_wfx parse_audio_format
negotiates = refl

plays : capture_exclusive endpoint handle prepared wakes ≡ some played
unfolding capture_exclusive initialize_client probe make_wfx parse_audio_format set_format to_u32
    capture_loop drain push_overwrite mask copy_in volatile_copy_to write_volatile
plays = refl

room :
    (fmt : AudioFormat)
    → negotiate endpoint.supported ≡ some fmt
    → length (captured_all handle fmt.frame_bytes wakes) < u64_mod
room fmt e =
    rw (sym (ap (λ (f : AudioFormat). f.frame_bytes) (some-injective cd fmt (sym negotiates ∙ e))))
      (omega arith)

session_lem_example :
    (attach prepared 200 ≡ ok handle)
    × ((fmt : AudioFormat) × (negotiate endpoint.supported ≡ some fmt)
        × (format played.shm ≡ some fmt)
        × (read_quantum 1 handle played.shm 8 6
            ≡ some (
                delivers played.shm (captured_all handle fmt.frame_bytes wakes) 8 (
                  plan fmt.frame_bytes 8 6
                    (length (captured_all handle fmt.frame_bytes wakes))
                    0))))
session_lem_example =
    session_lem blank {total = 200} {cap = 8} (omega arith) (omega arith) refl prepares endpoint
      wakes room plays refl 8 6 0 (omega arith)
