-- ===== src/Host/Forward/Pipe.antt =====
-- `write_frame` (lalah-host/src/video.rs) and the pipe.
use lalah.Base.{ℕ, ◌+◌, ◌≤◌, ◌<◌, ◌≡◌, ◌↔◌, some, List, arith, length}
use lalah.Host.Forward.{WriteResult, bytes, fails, wrote, Answers, outcome, put, write_frame}

-- The kernel's contract for `write`: never more bytes than asked for.
abbrev pub IsBounded : WriteResult → ℕ → Type 0
IsBounded (bytes n) len = n ≤ len
IsBounded (fails errno) len = Unit {0}

outcome_lem :
    (len : ℕ) (w : WriteResult)
    → 0 < len
    → IsBounded w len
    → ((outcome len w ≡ wrote) ↔ (put w ≡ len)) × (put w ≤ len)
outcome_lem len (bytes n) pos b = ((ground arith, ground arith), b)
outcome_lem len (fails errno) pos b = ((ground arith, ground arith), omega arith)

-- If `write` never takes more than it is given, `write_frame` reports a frame as written exactly
-- if all of its bytes, which are at least one, have gone into the pipe. With the pipe's size and
-- the queue known and the queue within the size, the pipe is never filled beyond its size.
pub write_frame_lem :
    (a : Answers) (frame : List ℕ)
    → 0 < length frame
    → IsBounded a.write (length frame)
    → (((write_frame a frame).0 ≡ wrote) ↔ ((write_frame a frame).1 ≡ length frame))
      × ((queued : ℕ)
          → a.queued ≡ some queued
          → 0 < a.pipe_sz
          → queued ≤ a.pipe_sz
          → queued + (write_frame a frame).1 ≤ a.pipe_sz)
unfolding write_frame
write_frame_lem a frame pos b =
    let (both, small) = outcome_lem (length frame) a.write pos b in
    (ground arith, λ queued e sized room. ground arith)
