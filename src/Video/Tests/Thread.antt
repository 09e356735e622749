-- ===== src/Video/Tests/Thread.antt =====
-- The host's video thread over a region with three slots: the geometry is found at the second look, a frame
-- is pushed before the loop's first round and another one before its second.
use lalah.Base.{◌≡◌, refl, List, [], ◌∷◌, none, some, arith, ok, map, Option}
use lalah.Memory.Words.{volatile_write_frame}
use lalah.Video.Header.{align_up_64}
use lalah.Video.Ring.{VideoShm, unset, init, set_geometry, push_frame}
use lalah.Host.Forward.{bytes, Handed}
use lalah.Host.Forward.Frames.{IsRising}
use lalah.Host.Forward.Fifo.{make_fifo}
use lalah.Host.Forward.Thread.{Round, moment_of, VideoWorld, forwarding, run_video}
use lalah.Session.Frames.{push_all, frames_of}
use lalah.Session.Watched.{Watched, nothing, watch, ArePushed}
use lalah.Session.Thread.{thread_session}
use lalah.Video.Tests.{opened, tiny, cut_handle, cut_region, pixels, pixels-AreBytes}

abbrev unprepared : VideoShm
unprepared = record opened { hdr = record opened.hdr { magic = 0 } }

prepares : init unprepared 328 ≡ some (unset 328, opened)
unfolding init
prepares = refl

abbrev or_else : Option VideoShm → VideoShm → VideoShm
or_else (some shm) d = shm
or_else none d = d

-- The regions with one frame and with two.
abbrev one_frame : VideoShm
one_frame = or_else (push_frame cut_handle cut_region pixels) opened

abbrev two_frames : VideoShm
two_frames = or_else (push_frame cut_handle one_frame pixels) opened

-- A round with room in the pipe, over one region.
abbrev round_over : VideoShm → Round
round_over shm = record {
  open_answer = some 5;
  set_answer = λ size. some size;
  get_answer = none;
  at_poll = shm;
  at_read = shm;
  after_read = shm;
  answers = record { pipe_sz = 4096; queued = some 0; write = bytes 3 };
}

abbrev world : VideoWorld
world = record {
  looks = opened ∷ cut_region ∷ [];
  mkfifo = some 17;
  at_start = cut_region;
  rounds = round_over one_frame ∷ round_over two_frames ∷ [];
}

pipe_made : make_fifo "/tmp/v" (some 17) ≡ ok tt
unfolding make_fifo
pipe_made = refl

first_push : push_all cut_handle cut_region (pixels ∷ []) ≡ some one_frame
unfolding push_frame volatile_write_frame
first_push = refl

second_push : push_all cut_handle one_frame (pixels ∷ []) ≡ some two_frames
unfolding push_frame volatile_write_frame
second_push = refl

watched :
    Watched cut_handle cut_region
      (map (moment_of "/tmp/v" 4096) world.rounds)
      (pixels ∷ pixels ∷ [])
watched =
    watch (pixels ∷ []) [] [] (pixels-AreBytes, tt) tt tt first_push refl refl
      (watch (pixels ∷ []) [] [] (pixels-AreBytes, tt) tt tt second_push refl refl nothing)

thread_session_example :
    (hs : List Handed) × (run_video (unset 328) "/tmp/v" 4096 world ≡ some (forwarding hs))
    × IsRising 0 hs
    × ArePushed (frames_of cut_handle (pixels ∷ pixels ∷ [])) hs
unfolding set_geometry align_up_64
thread_session_example =
    thread_session unprepared 328 tiny (omega arith) (λ j. omega arith) prepares (omega arith)
      (omega arith) (omega arith) "/tmp/v" 4096 world 1 [] [] [] (pixels ∷ pixels ∷ []) refl
      pipe_made tt refl tt refl watched (omega arith)
