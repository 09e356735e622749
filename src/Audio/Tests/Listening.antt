-- ===== src/Audio/Tests/Listening.antt =====
-- A region of eight bytes that is prepared, gets a format, and is played for two cycles.
use lalah.Base.{ℕ, ◌+◌, take, ◌≡◌, refl, none, some, List, [], ◌∷◌, arith, true}
use lalah.Memory.{volatile_copy_to, volatile_copy_from, write_volatile, read_volatile}
use lalah.Audio.Ring.{
  set_format, format, push_overwrite, copy_in, copy_out, mask, plan, unchanged, read_quantum,
  pointers,
}
use lalah.Audio.Header.{to_u32}
use lalah.Host.Playback.{process}
use lalah.Host.Playback.Setup.{
  SpaConstants, PipewireCalls, Playing, SpaFormat, running, initial_state, positions, run_playback,
}
use lalah.Session.Playback.{Event, pushed, cycle, Piece, play, AreNext}
use lalah.Session.Listening.{listening_session, gapless_session}
use lalah.Session.Gapless.{heard}
use lalah.Audio.Tests.{zeroes, ready, handle, stereo, init_runs, four}

abbrev constants : SpaConstants
constants = record { max_channels = 4; channel_fl = 3; channel_fr = 4 }

-- PipeWire answers every call.
abbrev calls : PipewireCalls
calls = record {
  main_loop = none;
  context = none;
  connect_core = none;
  stream = none;
  register = none;
  serializes = true;
  is_pod = true;
  connect = none;
}

abbrev playback : Playing
playback = record {
  latency = (256, 48_000);
  info = record {
    format = SpaFormat.s16_le;
    rate = 48_000;
    channels = 1;
    position = 3 ∷ 0 ∷ 0 ∷ 0 ∷ [];
  };
  state = initial_state stereo handle 2;
}

runs : run_playback calls constants stereo handle 2 256 ≡ some (running playback)
unfolding run_playback positions
runs = refl

-- A push of two frames; a cycle over one of them, and one that finds the other and a frame of silence.
abbrev events : List Event
events = pushed four ∷ cycle 2 ∷ cycle 5 ∷ []

abbrev pieces : List Piece
pieces =
    record { filled = 1 ∷ 2 ∷ []; upto = 2 } ∷ record { filled = 3 ∷ 4 ∷ 0 ∷ 0 ∷ []; upto = 4 } ∷ []

plays : play (initial_state stereo handle 2) (set_format ready stereo) events ≡ some pieces
unfolding play set_format to_u32 push_overwrite mask copy_in volatile_copy_to write_volatile process
    pointers read_quantum plan copy_out volatile_copy_from read_volatile unchanged
plays = refl

listening_session_example :
    (format (set_format ready stereo) ≡ some stereo)
    × ((ps : List Piece) × (play playback.state (set_format ready stereo) events ≡ some ps)
        × AreNext 0 four ps)
listening_session_example =
    listening_session zeroes {total = 200} {cap = 8} (omega arith) (omega arith) init_runs stereo
      (omega arith) calls constants 2 256 runs events (omega arith, (omega arith, tt)) (omega arith)

gapless_session_example :
    (ps : List Piece) × (n : ℕ) × (play playback.state (set_format ready stereo) events ≡ some ps)
    × (heard 0 ps ≡ take n four)
    × (n + 0 ≡ 4)
gapless_session_example =
    gapless_session zeroes {total = 200} {cap = 8} (omega arith) (omega arith) init_runs stereo
      (omega arith) calls constants 2 256 runs events (omega arith, (omega arith, tt))
      (omega arith, (omega arith, tt)) (omega arith)
