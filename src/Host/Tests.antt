-- ===== src/Host/Tests.antt =====
-- Runs of the host on small regions, and the theorems at concrete inputs.
mod Args
mod Run
mod Statistics
mod Command
use lalah.Base.{
  ℕ, zero, suc, ◌+◌, ◌-◌, ◌≤◌, ◌<◌, ◌≡◌, ◌↔◌, ◌⊎◌, inl, refl, true, false, List, [], ◌∷◌, ◌++◌,
  none, some, arith, get_or, replicate,
}
use lalah.Base.Zeros.{leading_zeros}
use lalah.Audio.Header.{ShmHeader, shm_magic}
use lalah.Audio.Ring.{Shm}
use lalah.Audio.Ring.Stream.{Kept}
use lalah.Audio.Ring.Read.{slice}
use lalah.Video.Header.{ShmVideoHeader, video_magic}
use lalah.Video.Ring.{VideoShm, ShmVideoBuffer, frame_count}
use lalah.Video.Ring.Geometry.{IsCut}
use lalah.Host.Startup.{prev_power_of_two}
use lalah.Host.Startup.Layout.{Outcome, start-Outcome}
use lalah.Host.Playback.{PlaybackState, returned, process}
use lalah.Host.Playback.Latency.{
  IsPlaying, plan_of, state_after, shm_after, window, process_fills, process_keeps_up,
}
use lalah.Host.Forward.{
  begin, Answers, bytes, wrote, write_frame, Forwarder, Moment, Handed, run_loop,
}
use lalah.Host.Forward.Pipe.{write_frame_lem}
use lalah.Host.Forward.Frames.{IsRising, run_loop-IsRising}

prev_power_of_two_runs : prev_power_of_two 16777024 ≡ 8388608
unfolding prev_power_of_two leading_zeros
prev_power_of_two_runs = refl

abbrev header : ShmHeader
header = record {
  magic = shm_magic;
  version = 1;
  header_size = 192;
  capacity = 8;
  sample_rate = 48_000;
  channels = 1;
  format = 0;
  frame_bytes = 2;
  tail = 4;
  seq = 2;
  head = 0;
}

-- Four bytes in a ring of eight.
abbrev playing : Shm
playing = record {
  hdr = header;
  payload = record { size = 20_000_000; cell = λ i. get_or (1 ∷ 2 ∷ 3 ∷ 4 ∷ []) i 0 };
}

abbrev four : List ℕ
four = 1 ∷ 2 ∷ 3 ∷ 4 ∷ []

playing-Kept : Kept 8 playing.payload four
playing-Kept zero lt near = refl
playing-Kept (suc zero) lt near = refl
playing-Kept (suc (suc zero)) lt near = refl
playing-Kept (suc (suc (suc zero))) lt near = refl
playing-Kept (suc (suc (suc (suc p)))) lt near = absurd (omega arith)

abbrev state : PlaybackState
state = record {
  ring = record { cap = 8 };
  max_latency_bytes = 2;
  stride = 2;
  underflows = 0;
  overflows = 0;
}

state-IsPlaying : IsPlaying state playing 7
state-IsPlaying = record { some_frame = omega arith; same_frame = refl; word = omega arith }

abbrev video_header : ShmVideoHeader
video_header = record {
  magic = video_magic;
  version = 1;
  header_size = 128;
  width = 3;
  height = 1;
  stride = 3;
  fourcc = 0;
  frame_size = 3;
  slot_count = 3;
  frame_seq = 1;
}

-- A region with one frame of zeroes, and with two.
abbrev one_frame : VideoShm
one_frame = record { hdr = video_header; payload = record { size = 200; cell = λ _. 0 } }

abbrev two_frames : VideoShm
two_frames = record one_frame { hdr = record video_header { frame_seq = 2 } }

abbrev frames_handle : ShmVideoBuffer
frames_handle = record { region_len = 328; frame_size = 3; slot_stride = 64; slot_count = 3 }

process_fills_example :
    process 1 state playing (some 7)
    ≡ some (
        returned
          (state_after state playing 7)
          (shm_after state playing 7)
          (slice four (plan_of state playing 7).head (plan_of state playing 7).want
            ++ replicate (window state 7 - (plan_of state playing 7).want) 0)
          (window state 7))
process_fills_example =
    process_fills state-IsPlaying {stream = four}
      (record { log_cap = 3; cap_pow = refl; fits = omega arith })
      (record { count = refl; small = omega arith; kept = playing-Kept }) refl (inl (omega arith)) 0

process_keeps_up_example :
    (st' : PlaybackState) × (shm' : Shm) × (filled : List ℕ) × (process 1 state playing (some 7)
      ≡ some (returned st' shm' filled 6))
    × ((shm'.hdr.tail - shm'.hdr.head ≤ 2) ⊎ (shm'.hdr.tail - shm'.hdr.head < 2))
process_keeps_up_example =
    process_keeps_up state-IsPlaying {stream = four}
      (record { log_cap = 3; cap_pow = refl; fits = omega arith })
      (record { count = refl; small = omega arith; kept = playing-Kept }) refl (inl (omega arith)) 0

abbrev roomy : Answers
roomy = record { pipe_sz = 4096; queued = some 0; write = bytes 3 }

write_frame_lem_example :
    (((write_frame roomy (0 ∷ 0 ∷ 0 ∷ [])).0 ≡ wrote)
      ↔ ((write_frame roomy (0 ∷ 0 ∷ 0 ∷ [])).1 ≡ 3))
    × ((queued : ℕ)
        → roomy.queued ≡ some queued
        → 0 < 4096
        → queued ≤ 4096
        → queued + (write_frame roomy (0 ∷ 0 ∷ 0 ∷ [])).1 ≤ 4096)
write_frame_lem_example = write_frame_lem roomy (0 ∷ 0 ∷ 0 ∷ []) (omega arith) (omega arith)

-- The pipe is opened when the frame is there that was there before; then a second one comes.
abbrev first_round : Moment
first_round = record {
  reader = some (5, 4096);
  at_poll = one_frame;
  at_read = one_frame;
  after_read = one_frame;
  answers = roomy;
}

abbrev second_round : Moment
second_round = record {
  reader = none;
  at_poll = two_frames;
  at_read = two_frames;
  after_read = two_frames;
  answers = roomy;
}

frames_handle-IsCut : (shm : VideoShm) → shm.payload.size ≡ 200 → IsCut frames_handle shm
frames_handle-IsCut shm e = record {
  some_frame = omega arith;
  enough = omega arith;
  aligned = refl;
  holds_frame = omega arith;
  fits = omega arith;
  narrow = omega arith;
}

run_loop-IsRising_example :
    (hs : List Handed) × (run_loop frames_handle
        (begin frames_handle one_frame)
        (first_round ∷ second_round ∷ [])
      ≡ some hs)
    × IsRising 1 hs
unfolding frame_count
run_loop-IsRising_example =
    run_loop-IsRising frames_handle one_frame (first_round ∷ second_round ∷ [])
      (omega arith, omega arith, omega arith, (omega arith, omega arith, omega arith, tt))
      (
        frames_handle-IsCut one_frame refl,
        λ j. omega arith,
        (frames_handle-IsCut two_frames refl, λ j. omega arith, tt),
      )
