-- ===== src/Host/Run.antt =====
-- `run` of packages/lalah-host/src/main.rs as a whole: the mapping, the touching of its pages, the start,
-- the video thread, the wait for the format and the call of the playback. What the system answers and the
-- region at each look for the format are arguments; `none` is a panic or a lack of fuel.
pub mod Ends
use Prim.Native.String.{String}
use lalah.Base.{
  ℕ, zero, suc, ◌+◌, ◌*◌, ◌%◌, Option, none, some, List, [], ◌∷◌, leb, ltb, if◌then◌else◌, ◌>>=◌,
  Bool, true, false, Result, ok, err, u64_mod,
}
use lalah.Audio.Header.{AudioFormat, size_of_header}
use lalah.Audio.Ring.{Shm, ShmAudioBuffer, format}
use lalah.Video.Ring.{VideoShm}
use lalah.Host.Args.{HostArgs}
use lalah.Host.Startup.{VideoPart, Started, start, latency_bytes}

abbrev pub page : ℕ
page = 4096

-- The offsets at which the loop reads, from `off` on, in `usize` arithmetic.
unfoldable pub touch_pages : (fuel total off : ℕ) → Option (List ℕ)
touch_pages zero total off = none
touch_pages (suc fuel) total off =
    let rest = touch_pages fuel total ((off + page) % u64_mod) in
    if ltb off total then (rest >>= λ offs. some (off ∷ offs)) else some []

abbrev pub first_format : Option AudioFormat → Option AudioFormat → Option AudioFormat
first_format (some fmt) later = some fmt
first_format none later = later

-- The format that the loop breaks with; `none` while every look so far has found it unset.
unfoldable pub wait_format : List Shm → Option AudioFormat
wait_format [] = none
wait_format (shm ∷ later) = first_format (format shm) (wait_format later)

-- What the run meets: the length of the mapping or the error of `open` or of `map_raw`, the two parts of
-- the mapping, the error of `spawn`, and the region at each look for the format.
pub record HostWorld : Type 0 where
  pub mapping : Result ℕ String
  pub shm : Shm
  pub vshm : VideoShm
  pub spawn_error : Option String
  pub looks : List Shm

-- The arguments of `run_video`.
pub record VideoCall : Type 0 where
  pub part : VideoPart
  pub fifo : String
  pub pipe_size : ℕ
  pub read_delay_us : ℕ

-- The arguments of `run_playback`, and the video thread that runs by then.
pub record PlaybackCall : Type 0 where
  pub fmt : AudioFormat
  pub ring : ShmAudioBuffer
  pub max_latency_bytes : ℕ
  pub quantum : ℕ
  pub video : Option VideoCall

pub data HostRun : Type 0 where
  failed : (error : String) → HostRun
  waiting : HostRun
  playing : PlaybackCall → HostRun

abbrev pub has_fifo : Option String → Bool
has_fifo none = false
has_fifo (some fifo) = true

-- The video thread, for a frame ring that was prepared and a FIFO that was named.
abbrev pub video_call : HostArgs → Option VideoPart → Option String → Option VideoCall
video_call a (some part) (some fifo) = some (record {
  part = part;
  fifo = fifo;
  pipe_size = a.video_pipe_size;
  read_delay_us = a.video_read_delay_us;
})
video_call a (some part) none = none
video_call a none fifo = none

-- The playback, once there is a format.
abbrev pub play : HostArgs → Started → Option VideoCall → Option AudioFormat → HostRun
play a s video none = waiting
play a s video (some fmt) = playing (record {
  fmt = fmt;
  ring = s.ring;
  max_latency_bytes = latency_bytes a.latency_ms fmt;
  quantum = a.quantum;
  video = video;
})

-- The spawn of the video thread, whose error is the host's, and what follows.
abbrev pub spawn_and_wait :
    HostArgs → HostWorld → Started → Option VideoCall → Option String → HostRun
spawn_and_wait a w s none e = play a s none (wait_format w.looks)
spawn_and_wait a w s (some v) (some e) = failed e
spawn_and_wait a w s (some v) none = play a s (some v) (wait_format w.looks)

abbrev pub after_start : HostArgs → HostWorld → Result Started String → HostRun
after_start a w (err e) = failed e
after_start a w (ok s) = spawn_and_wait a w s (video_call a s.video a.video_fifo) w.spawn_error

-- The offsets that were touched, and how far the run comes.
abbrev pub run_mapped :
    (fuel : ℕ) → HostArgs → HostWorld → Result ℕ String → Option (List ℕ × HostRun)
run_mapped fuel a w (err e) = some ([], failed e)
run_mapped fuel a w (ok total) =
    (if leb total size_of_header then some [] else touch_pages fuel total 0) >>= λ touched.
    start total (has_fifo a.video_fifo) w.shm w.vshm >>= λ r. some (touched, after_start a w r)

unfoldable pub run : (fuel : ℕ) → HostArgs → HostWorld → Option (List ℕ × HostRun)
run fuel a w = run_mapped fuel a w w.mapping
