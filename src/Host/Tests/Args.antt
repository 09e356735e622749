-- ===== src/Host/Tests/Args.antt =====
-- The arguments of the host at concrete texts.
use Prim.Native.String.{String}
use lalah.Base.{◌*◌, ◌/◌, ◌≡◌, refl, none, some, List, [], ◌∷◌, arith}
use lalah.Audio.Header.{SampleFormat, AudioFormat}
use lalah.Host.Startup.{latency_bytes}
use lalah.Host.Args.{HostArgs, host_defaults, set_option, parse_options, parse_host_args}
use lalah.Host.Args.Number.{scan, digits, parse}
use lalah.Host.Args.Range.{IsInRange, parse_host_args-IsInRange}

zero_quantum : parse_host_args ("--quantum" ∷ "0" ∷ []) ≡ none
unfolding parse_host_args parse_options set_option parse digits scan
zero_quantum = refl

too_long : parse_host_args ("--latency-ms" ∷ "4294967296" ∷ []) ≡ none
unfolding parse_host_args parse_options set_option parse digits scan
too_long = refl

abbrev typed : List String
typed = "--latency-ms" ∷ "+40" ∷ "--video-fifo" ∷ "/tmp/v" ∷ []

abbrev understood : HostArgs
understood = record host_defaults { latency_ms = 40; video_fifo = some "/tmp/v" }

typed_runs : parse_host_args typed ≡ some understood
unfolding parse_host_args parse_options set_option parse digits scan
typed_runs = refl

abbrev stereo : AudioFormat
stereo = record {
  sample_rate = 48_000;
  channels = 2;
  format = SampleFormat.s16_le;
  frame_bytes = 4;
}

parse_host_args-IsInRange_example :
    IsInRange understood × (latency_bytes 40 stereo ≡ 40 * 48_000 * 4 / 1000)
parse_host_args-IsInRange_example =
    parse_host_args-IsInRange typed understood stereo typed_runs (omega arith)
