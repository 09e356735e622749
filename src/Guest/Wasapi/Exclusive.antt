-- ===== src/Guest/Wasapi/Exclusive.antt =====
-- `capture_exclusive` of packages/lalah-vm/src/wasapi.rs around the probe and the capture loop: the calls
-- of COM and of the endpoint, each with its `?`, and what they leave open. Their answers are arguments,
-- as is the floating-point expression for the aligned period.
pub mod Calls
use lalah.Base.{
  ℕ, Bool, true, false, Option, none, some, List, ◌==◌, if◌then◌else◌, ◌>>=◌, Result, ok, err,
}
use lalah.Base.Checks.{check, check_value}
use lalah.Audio.Header.{AudioFormat}
use lalah.Audio.Ring.{Shm, ShmAudioBuffer, set_format}
use lalah.Guest.Wasapi.{
  WaveFormat, parse_audio_format, base_formats, probe, Wake, Stop, clean, failed, waiting,
  capture_loop,
}

-- What the calls answer: `none`, or the error. `initialize` and `buffer_size` take the client, 0 or, after
-- the second activation, 1.
pub record EndpointCalls : Type 0 where
  pub co_initialize : Option ℕ
  pub create_enumerator : Option ℕ
  pub get_device : Option ℕ
  pub activate : Option ℕ
  pub get_device_period : Result ℕ ℕ
  pub supported : WaveFormat → Bool
  pub initialize : (client duration : ℕ) → WaveFormat → Option ℕ
  pub buffer_size : (client : ℕ) → Result ℕ ℕ
  pub activate_again : Option ℕ
  pub aligned_period : (rate n_frames : ℕ) → ℕ
  pub create_event : Option ℕ
  pub set_event_handle : Option ℕ
  pub get_buffer_size : Option ℕ
  pub get_service : Option ℕ
  pub start : Option ℕ
  pub not_aligned : ℕ
  pub unsupported_format : ℕ

-- How the call ends: an error before the loop, or what the loop ends with.
pub data Exit : Type 0 where
  refused : (hresult : ℕ) → Exit
  stopped : Stop → Exit

-- The region and the resources when it ends, or while the loop still waits.
pub record Session : Type 0 where
  pub shm : Shm
  pub exit : Exit
  pub event_open : Bool
  pub streaming : Bool

-- An error before anything is open, and one behind `CreateEventW`.
abbrev pub fails : Shm → (hresult : ℕ) → Option Session
fails shm e = some (record { shm = shm; exit = refused e; event_open = false; streaming = false })

abbrev pub fails_open : Shm → (hresult : ℕ) → Option Session
fails_open shm e =
    some (record { shm = shm; exit = refused e; event_open = true; streaming = false })

-- The retry with a fresh client, if the first answer is that the buffer is not aligned.
abbrev pub retry_aligned : EndpointCalls → WaveFormat → (rate : ℕ) → Option ℕ → Option ℕ
retry_aligned c wfx rate none = none
retry_aligned c wfx rate (some e) =
    let again : ℕ → Option ℕ = λ n_frames.
      check c.activate_again some (c.initialize 1 (c.aligned_period rate n_frames) wfx) in
    if e == c.not_aligned then check_value (c.buffer_size 0) some again else some e

unfoldable pub initialize_client : EndpointCalls → WaveFormat → (rate min_period : ℕ) → Option ℕ
initialize_client c wfx rate min_period = retry_aligned c wfx rate (c.initialize 0 min_period wfx)

-- The teardown, unless the loop still waits.
abbrev pub teardown : Shm × Stop → Session
teardown (shm, waiting) = record {
  shm = shm;
  exit = stopped waiting;
  event_open = true;
  streaming = true;
}
teardown (shm, clean) = record {
  shm = shm;
  exit = stopped clean;
  event_open = false;
  streaming = false;
}
teardown (shm, failed e) = record {
  shm = shm;
  exit = stopped (failed e);
  event_open = false;
  streaming = false;
}

-- From the publication of the format on.
abbrev pub stream : EndpointCalls → ShmAudioBuffer → Shm → AudioFormat → List Wake → Option Session
stream c me shm fmt ws =
    check c.start (fails_open (set_format shm fmt))
      (capture_loop me fmt.frame_bytes (set_format shm fmt) ws >>= λ r. some (teardown r))

-- Steps 7 to 11, with the format that was chosen.
abbrev pub open_stream :
    EndpointCalls
    → ShmAudioBuffer
    → Shm
    → List Wake
    → (min_period : ℕ) → WaveFormat
    → Option AudioFormat
    → Option Session
open_stream c me shm ws min_period wfx none = fails shm c.unsupported_format
open_stream c me shm ws min_period wfx (some fmt) =
    check (initialize_client c wfx fmt.sample_rate min_period) (fails shm) (
      check c.create_event (fails shm) (
        check c.set_event_handle (fails_open shm) (
          check c.get_buffer_size (fails_open shm)
            (check c.get_service (fails_open shm) (stream c me shm fmt ws)))))

abbrev pub open_probed :
    EndpointCalls
    → ShmAudioBuffer
    → Shm
    → List Wake
    → (min_period : ℕ) → Option WaveFormat
    → Option Session
open_probed c me shm ws min_period none = fails shm c.unsupported_format
open_probed c me shm ws min_period (some wfx) =
    open_stream c me shm ws min_period wfx (parse_audio_format wfx)

unfoldable pub capture_exclusive : EndpointCalls → ShmAudioBuffer → Shm → List Wake → Option Session
unfolding initialize_client
capture_exclusive c me shm ws = check c.co_initialize (fails shm) (
    check c.create_enumerator (fails shm) (
      check c.get_device (fails shm) (
        check c.activate (fails shm) (
          check_value c.get_device_period (fails shm)
            (λ min_period. open_probed c me shm ws min_period (probe c.supported base_formats))))))
