-- ===== src/Host/Playback/Setup.antt =====
-- `run_playback` of packages/lalah-host/src/playback.rs up to its main loop: the calls of PipeWire in their
-- order, what they are asked for, and the state that the callback gets. What PipeWire answers, and its
-- constants, are arguments.
use Prim.Native.String.{String}
use lalah.Base.{
  ℕ, zero, suc, Bool, true, false, ◌&&◌, Option, none, some, List, [], ◌∷◌, leb, if◌then◌else◌,
  ◌>>=◌, replicate,
}
use lalah.Audio.Header.{SampleFormat, AudioFormat}
use lalah.Audio.Ring.{ShmAudioBuffer}
use lalah.Host.Playback.{PlaybackState}

-- The sample formats of PipeWire that are asked for.
pub data SpaFormat : Type 0 where
  s16_le : SpaFormat
  s32_le : SpaFormat
  f32_le : SpaFormat

abbrev pub spa_format : SampleFormat → SpaFormat
spa_format SampleFormat.s16_le = SpaFormat.s16_le
spa_format SampleFormat.s32_le = SpaFormat.s32_le
spa_format SampleFormat.f32_le = SpaFormat.f32_le

-- PipeWire's constants: `MAX_CHANNELS`, and the positions of the two front speakers.
pub record SpaConstants : Type 0 where
  pub max_channels : ℕ
  pub channel_fl : ℕ
  pub channel_fr : ℕ

-- `xs[i] = x`, which panics out of range.
abbrev pub set_at : List ℕ → (i x : ℕ) → Option (List ℕ)
set_at [] i x = none
set_at (y ∷ ys) zero x = some (x ∷ ys)
set_at (y ∷ ys) (suc i) x = set_at ys i x >>= λ zs. some (y ∷ zs)

-- The positions of the channels: the first two are the front speakers, and the others are left at 0.
abbrev pub set_if : (at_least i x : ℕ) → (channels : ℕ) → List ℕ → Option (List ℕ)
set_if at_least i x channels xs = if leb at_least channels then set_at xs i x else some xs

unfoldable pub positions : SpaConstants → (channels : ℕ) → Option (List ℕ)
positions k channels = set_if 1 0 k.channel_fl channels (replicate k.max_channels 0) >>= λ xs.
    set_if 2 1 k.channel_fr channels xs

pub record AudioInfo : Type 0 where
  pub format : SpaFormat
  pub rate : ℕ
  pub channels : ℕ
  pub position : List ℕ

-- What the calls answer: an error, or none.
pub record PipewireCalls : Type 0 where
  pub main_loop : Option String
  pub context : Option String
  pub connect_core : Option String
  pub stream : Option String
  pub register : Option String
  -- `PodSerializer::serialize` and `Pod::from_bytes`, whose errors panic.
  pub serializes : Bool
  pub is_pod : Bool
  pub connect : Option String

-- What stands when the main loop runs: the hint for the quantum, what the stream is asked to be, and the
-- callback's state.
pub record Playing : Type 0 where
  pub latency : ℕ × ℕ
  pub info : AudioInfo
  pub state : PlaybackState

-- The call has returned an error, before or after the statistics thread was spawned, or the loop runs.
pub data Setup : Type 0 where
  refused : (error : String) (statistics : Bool) → Setup
  running : Playing → Setup

abbrev pub or_refuse : Option String → (statistics : Bool) → Option Setup → Option Setup
or_refuse none statistics next = next
or_refuse (some error) statistics next = some (refused error statistics)

-- The state that `add_local_listener_with_user_data` takes.
abbrev pub initial_state : AudioFormat → ShmAudioBuffer → (max_latency_bytes : ℕ) → PlaybackState
initial_state fmt ring max_latency_bytes = record {
  ring = ring;
  max_latency_bytes = max_latency_bytes;
  stride = fmt.frame_bytes;
  underflows = 0;
  overflows = 0;
}

-- From the parameter of the format on.
abbrev pub connect_stream :
    PipewireCalls
    → SpaConstants
    → AudioFormat
    → ShmAudioBuffer
    → (max_latency_bytes quantum : ℕ) → Option Setup
connect_stream c k fmt ring max_latency_bytes quantum = positions k fmt.channels >>= λ position.
    (if c.serializes && c.is_pod
      then or_refuse c.connect true (
          some (
            running (record {
              latency = (quantum, fmt.sample_rate);
              info = record {
                format = spa_format fmt.format;
                rate = fmt.sample_rate;
                channels = fmt.channels;
                position = position;
              };
              state = initial_state fmt ring max_latency_bytes;
            })))
      else none)

-- `none` is a panic.
unfoldable pub run_playback :
    PipewireCalls
    → SpaConstants
    → AudioFormat
    → ShmAudioBuffer
    → (max_latency_bytes quantum : ℕ) → Option Setup
run_playback c k fmt ring max_latency_bytes quantum = or_refuse c.main_loop false (
    or_refuse c.context false (
      or_refuse c.connect_core false (
        or_refuse c.stream false
          (or_refuse c.register true (connect_stream c k fmt ring max_latency_bytes quantum)))))
