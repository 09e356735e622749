-- ===== src/Guest/Tests/Exclusive.antt =====
-- `capture_exclusive` at concrete answers.
use mathlib.Core.Option.{some-injective}
use lalah.Base.{
  ◌*◌, ◌/◌, ◌==◌, if◌then◌else◌, ◌<◌, ◌≡◌, refl, none, some, arith, ok, length, u64_mod, sym, ap,
}
use lalah.Audio.Header.{AudioFormat}
use lalah.Guest.Wasapi.{negotiate, probe, make_wfx, parse_audio_format}
use lalah.Guest.Wasapi.Capture.{captured_all}
use lalah.Guest.Wasapi.Exclusive.{EndpointCalls, Session, capture_exclusive}
use lalah.Guest.Wasapi.Exclusive.Calls.{IsFresh, Ends, capture_exclusive-Ends}
use lalah.Guest.Tests.{cd_only, fresh, ring, wakes}

-- The endpoint asks for an aligned buffer, and takes it.
abbrev endpoint : EndpointCalls
endpoint = record {
  co_initialize = none;
  create_enumerator = none;
  get_device = none;
  activate = none;
  get_device_period = ok 30_000;
  supported = cd_only;
  initialize = λ client duration w. if client == 0 then some 25 else none;
  buffer_size = λ client. ok 132;
  activate_again = none;
  aligned_period = λ rate n_frames. n_frames * 10_000_000 / rate;
  create_event = none;
  set_event_handle = none;
  get_buffer_size = none;
  get_service = none;
  start = none;
  not_aligned = 25;
  unsupported_format = 8;
}

fresh-IsFresh : IsFresh ring fresh
fresh-IsFresh = record {
  valid = record { log_cap = 3; cap_pow = refl; fits = omega arith };
  holds = record { count = refl; small = omega arith; kept = λ p lt. absurd (omega arith) };
  at_start = refl;
  even = refl;
  whole = refl;
}

room :
    (fmt : AudioFormat)
    → negotiate cd_only ≡ some fmt
    → length (captured_all ring fmt.frame_bytes wakes) < u64_mod
unfolding negotiate probe make_wfx parse_audio_format
room fmt e =
    rw (sym (ap (λ (f : AudioFormat). f.frame_bytes) (some-injective _ fmt e))) (omega arith)

capture_exclusive-Ends_example :
    (r : Session) × (capture_exclusive endpoint ring fresh wakes ≡ some r)
    × Ends endpoint ring fresh wakes r
capture_exclusive-Ends_example = capture_exclusive-Ends endpoint wakes fresh-IsFresh room
