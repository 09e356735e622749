-- ===== src/Host/Forward/Thread.antt =====
-- `run_video` of packages/lalah-host/src/video.rs as a whole: the wait for the geometry, the named pipe, and
-- the loop. The region at each look, and what the kernel answers, are arguments.
use Prim.Native.String.{String}
use lalah.Base.{ℕ, Option, none, some, List, [], ◌∷◌, map, ◌>>=◌, Result, ok, err}
use lalah.Video.Header.{VideoFormat}
use lalah.Video.Ring.{VideoShm, ShmVideoBuffer, refresh_geometry}
use lalah.Host.Forward.{Answers, Moment, begin, Handed, run_loop}
use lalah.Host.Forward.Fifo.{FifoError, make_fifo, open_fifo_nonblock, set_pipe_size}

-- A look that finds the geometry unset leaves the handle as it was.
abbrev pub first_geometry :
    ShmVideoBuffer × Option VideoFormat
    → Option (ShmVideoBuffer × VideoFormat)
    → Option (ShmVideoBuffer × VideoFormat)
first_geometry (me, some vf) later = some (me, vf)
first_geometry (me, none) later = later

-- The handle and the geometry that the wait ends with; `none` while every look has found it unset.
unfoldable pub wait_geometry :
    ShmVideoBuffer → List VideoShm → Option (ShmVideoBuffer × VideoFormat)
wait_geometry vid [] = none
wait_geometry vid (shm ∷ later) =
    first_geometry (refresh_geometry vid shm) (wait_geometry vid later)

-- What one round meets: what `open`, `F_SETPIPE_SZ` and `F_GETPIPE_SZ` answer, the region when the
-- count is polled, when the frame is read, and after that, and the pipe.
pub record Round : Type 0 where
  pub open_answer : Option ℕ
  pub set_answer : ℕ → Option ℕ
  pub get_answer : Option ℕ
  pub at_poll : VideoShm
  pub at_read : VideoShm
  pub after_read : VideoShm
  pub answers : Answers

abbrev pub reader_at : (pipe_size : ℕ) → Round → Option ℕ → Option (ℕ × ℕ)
reader_at pipe_size r none = none
reader_at pipe_size r (some fd) = some (fd, set_pipe_size pipe_size r.set_answer r.get_answer)

abbrev pub moment_of : (fifo_path : String) (pipe_size : ℕ) → Round → Moment
moment_of fifo_path pipe_size r = record {
  reader = reader_at pipe_size r (open_fifo_nonblock fifo_path r.open_answer);
  at_poll = r.at_poll;
  at_read = r.at_read;
  after_read = r.after_read;
  answers = r.answers;
}

-- What the thread meets: the region at each look for the geometry and when the loop begins, what
-- `mkfifo` answers, and the rounds of the loop.
pub record VideoWorld : Type 0 where
  pub looks : List VideoShm
  pub mkfifo : Option ℕ
  pub at_start : VideoShm
  pub rounds : List Round

pub data ThreadRun : Type 0 where
  waiting : ThreadRun
  disabled : FifoError → ThreadRun
  forwarding : List Handed → ThreadRun

-- The loop, once the pipe is made.
abbrev pub forward_through :
    ShmVideoBuffer
    → (fifo_path : String) (pipe_size : ℕ) → VideoWorld
    → Result (Unit {0}) FifoError
    → Option ThreadRun
forward_through me fifo_path pipe_size w (err e) = some (disabled e)
forward_through me fifo_path pipe_size w (ok u) =
    run_loop me (begin me w.at_start) (map (moment_of fifo_path pipe_size) w.rounds) >>= λ handed.
    some (forwarding handed)

abbrev pub run_with :
    (fifo_path : String) (pipe_size : ℕ)
    → VideoWorld
    → Option (ShmVideoBuffer × VideoFormat)
    → Option ThreadRun
run_with fifo_path pipe_size w none = some waiting
run_with fifo_path pipe_size w (some found) =
    forward_through found.0 fifo_path pipe_size w (make_fifo fifo_path w.mkfifo)

unfoldable pub run_video :
    ShmVideoBuffer → (fifo_path : String) (pipe_size : ℕ) → VideoWorld → Option ThreadRun
run_video vid fifo_path pipe_size w = run_with fifo_path pipe_size w (wait_geometry vid w.looks)
