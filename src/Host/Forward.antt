-- ===== src/Host/Forward.antt =====
-- The video thread of the host, packages/lalah-host/src/video.rs: frames into a named pipe. The pipe
-- is the kernel's, so each call's answer is an argument.
pub mod Frames
pub mod Fifo
pub mod Command
pub mod Thread
pub mod Pipe
use lalah.Base.{
  ℕ, suc, ◌+◌, ◌-◌, ◌*◌, ◌%◌, Bool, true, false, ◌&&◌, ◌||◌, replicate, Option, none, some, List,
  [], ◌∷◌, ◌++◌, ltb, leb, ◌==◌, if◌then◌else◌, ◌>>=◌, length, wrapping_add,
}
use lalah.Video.Ring.{VideoShm, ShmVideoBuffer, frame_count, read_frame}

pub data WriteOutcome : Type 0 where
  wrote : WriteOutcome
  dropped : WriteOutcome
  reader_gone : WriteOutcome

-- What `write` answers: a number of bytes, or an error number.
pub data WriteResult : Type 0 where
  bytes : ℕ → WriteResult
  fails : (errno : ℕ) → WriteResult

abbrev pub eagain : ℕ
eagain = 11

abbrev pub epipe : ℕ
epipe = 32

-- What the kernel answers while a frame is handed over: the pipe's size, which is 0 here if the query
-- fails; the bytes queued, if that query works; and the answer to `write`.
pub record Answers : Type 0 where
  pub pipe_sz : ℕ
  pub queued : Option ℕ
  pub write : WriteResult

-- Whether the frame is dropped before `write`: it is longer than the free space, which is negative
-- if more is queued than the pipe holds.
abbrev pub no_room : (pipe_sz : ℕ) → Option ℕ → (len : ℕ) → Bool
no_room pipe_sz none len = false
no_room pipe_sz (some queued) len = ltb 0 pipe_sz && ltb pipe_sz (queued + len)

abbrev pub outcome : (len : ℕ) → WriteResult → WriteOutcome
outcome len (bytes n) = if n == len then wrote else dropped
outcome len (fails errno) =
    if errno == eagain then dropped else if errno == epipe then reader_gone else dropped

-- The number of bytes that `write` has put into the pipe.
abbrev pub put : WriteResult → ℕ
put (bytes n) = n
put (fails errno) = 0

-- The outcome, and the number of bytes that have gone into the pipe.
unfoldable pub write_frame : Answers → (frame : List ℕ) → WriteOutcome × ℕ
write_frame a frame =
    if no_room a.pipe_sz a.queued (length frame)
    then (dropped, 0)
    else (outcome (length frame) a.write, put a.write)

-- The locals of `run_video` that live across the rounds of its loop; `fd` is `none` for -1.
pub record Forwarder : Type 0 where
  pub frame : List ℕ
  pub fd : Option ℕ
  pub warned_small_pipe : Bool
  pub last_count : ℕ
  pub dropped : ℕ

-- What one round meets: the answer to opening the pipe (its descriptor and its size, or no reader),
-- the region when the count is polled, when the frame is read, and after that, and the pipe. The read is over
-- one snapshot: no frame is pushed during it.
pub record Moment : Type 0 where
  pub reader : Option (ℕ × ℕ)
  pub at_poll : VideoShm
  pub at_read : VideoShm
  pub after_read : VideoShm
  pub answers : Answers

-- The forwarder when the loop begins.
abbrev pub begin : ShmVideoBuffer → VideoShm → Forwarder
begin me shm = record {
  frame = replicate me.frame_size 0;
  fd = none;
  warned_small_pipe = false;
  last_count = frame_count shm;
  dropped = 0;
}

-- After a frame is handed over.
abbrev pub settle : Forwarder → WriteOutcome → Forwarder
settle st wrote = st
settle st WriteOutcome.dropped = record st { dropped = wrapping_add st.dropped 1 }
settle st reader_gone = record st { fd = none }

-- After `read_frame`, with the count that was polled. The number of the frame handed over, and how
-- that went.
abbrev pub hand_over :
    Forwarder → Moment → (count : ℕ) → List ℕ × Option ℕ → Forwarder × Option (ℕ × WriteOutcome)
hand_over st m count (frame, none) = (record st { frame = frame; last_count = count }, none)
hand_over st m count (frame, some newest) =
    let o = (write_frame m.answers frame).0 in
    (
      settle (record st { frame = frame; last_count = frame_count m.after_read }) o,
      some (newest, o),
    )

-- A round with the pipe open.
abbrev pub poll_once :
    ShmVideoBuffer → Forwarder → Moment → Option (Forwarder × Option (ℕ × WriteOutcome))
poll_once me st m =
    if frame_count m.at_poll == st.last_count
    then some (st, none)
    else read_frame me m.at_read st.frame >>= λ r. some (hand_over st m (frame_count m.at_poll) r)

-- A round that has to open the pipe first.
abbrev pub connect :
    ShmVideoBuffer
    → Forwarder
    → Moment
    → Option (ℕ × ℕ)
    → Option (Forwarder × Option (ℕ × WriteOutcome))
connect me st m none = some (record st { last_count = frame_count m.at_poll }, none)
connect me st m (some opened) =
    poll_once me
      (record st {
        fd = some opened.0;
        warned_small_pipe = st.warned_small_pipe || ltb opened.1 me.frame_size;
      })
      m

abbrev pub round_at :
    ShmVideoBuffer
    → Forwarder
    → Moment
    → (fd : Option ℕ) → Option (Forwarder × Option (ℕ × WriteOutcome))
round_at me st m none = connect me st m m.reader
round_at me st m (some fd) = poll_once me st m

-- One round of the loop.
unfoldable pub round :
    ShmVideoBuffer → Forwarder → Moment → Option (Forwarder × Option (ℕ × WriteOutcome))
round me st m = round_at me st m st.fd

-- A frame that was handed over: its number, what went to `write_frame`, and how that went.
pub record Handed : Type 0 where
  pub number : ℕ
  pub frame : List ℕ
  pub outcome : WriteOutcome

abbrev pub handed_in : Forwarder × Option (ℕ × WriteOutcome) → List Handed
handed_in (st, none) = []
handed_in (st, some h) = record { number = h.0; frame = st.frame; outcome = h.1 } ∷ []

-- The loop: the frames that it hands over, in order.
unfoldable pub run_loop : ShmVideoBuffer → Forwarder → List Moment → Option (List Handed)
run_loop me st [] = some []
run_loop me st (m ∷ ms) =
    round me st m >>= λ r. run_loop me r.0 ms >>= λ rest. some (handed_in r ++ rest)
