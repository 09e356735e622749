-- ===== src/Video/Tests/Progress.antt =====
-- The steps that a push and a read of a frame take, in the run of the frame race.
use lalah.Base.{◌≤◌, ◌≡◌, ◌⊎◌, refl, [], ◌∷◌, arith}
use lalah.Memory.{update, write_volatile}
use lalah.Video.Race.{FrameSystem, idle, resting, writing, store, return}
use lalah.Video.Race.Progress.{
  DuringPush, rests, pushes, reads, DuringRead, read_rests, others_push, read_goes_on, CanPushFrame,
  CanReadFrame, frame_push_ends, frame_read_ends,
}
use lalah.Video.Tests.{cut_handle, pixels, cut_handle-IsCut, cut_handle-HoldsFrames}
use lalah.Video.Tests.Race.{race_region, cells_4, raced_frames, frame_race}

-- The push has stored its second byte, and the read has returned.
abbrev meanwhile : FrameSystem
meanwhile = record {
  shm = race_region 1 (update cells_4 65 5);
  producer = writing (4 ∷ 5 ∷ 6 ∷ []) 1 2;
  consumer = resting;
  frames = pixels ∷ [];
}

a_store : DuringPush cut_handle raced_frames 1 meanwhile
unfolding write_volatile
a_store =
    pushes (λ e. absurd (ground arith))
      (store {shm' = race_region 1 (update cells_4 65 5)} (omega arith) refl refl)
      (reads return rests)

a_return : DuringRead cut_handle raced_frames 1 meanwhile
unfolding write_volatile
a_return =
    others_push (store {shm' = race_region 1 (update cells_4 65 5)} (omega arith) refl refl)
      (read_goes_on (λ e. absurd (ground arith)) return read_rests)

frame_push_ends_example :
    (1 ≤ 3)
    × ((meanwhile.producer ≡ idle) ⊎ CanPushFrame cut_handle meanwhile.shm meanwhile.producer)
frame_push_ends_example =
    frame_push_ends cut_handle-IsCut cut_handle-HoldsFrames (λ f lt. absurd (omega arith))
      frame_race a_store

frame_read_ends_example :
    (1 ≤ 1) × ((resting ≡ resting) ⊎ CanReadFrame cut_handle meanwhile.shm resting)
frame_read_ends_example =
    frame_read_ends cut_handle-IsCut cut_handle-HoldsFrames (λ f lt. absurd (omega arith))
      frame_race a_return
