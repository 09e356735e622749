-- ===== src/Video/Tests/Race.antt =====
-- A run of the frame race, and its theorems at concrete inputs.
use lalah.Base.{ℕ, refl, [], ◌∷◌, arith}
use lalah.Memory.{update, write_volatile, read_volatile}
use lalah.Video.Ring.{VideoShm, tear_safe}
use lalah.Video.Race.{
  idle, writing, resting, delivered, no_geometry, enter, store, publish, load_count, load_byte,
  accept, FrameSystem, produce, consume, FrameReach, here, later,
}
use lalah.Video.Race.Invariant.{IsFrame}
use lalah.Video.Race.Safety.{both_rest, frames_untorn}
use lalah.Video.Tests.{cut_handle, cut_region, pixels, cut_handle-IsCut, cut_handle-HoldsFrames}

-- The first frame is pushed and copied out while a second push has stored its first byte.
abbrev pub race_region : (frame_seq : ℕ) → (ℕ → ℕ) → VideoShm
race_region n cell = record {
  hdr = record cut_region.hdr { frame_seq = n };
  payload = record { size = 200; cell = cell };
}

abbrev cells_1 : ℕ → ℕ
cells_1 = update (λ _. 0) 0 7

abbrev cells_2 : ℕ → ℕ
cells_2 = update cells_1 1 8

abbrev cells_3 : ℕ → ℕ
cells_3 = update cells_2 2 9

abbrev pub cells_4 : ℕ → ℕ
cells_4 = update cells_3 64 4

abbrev pub raced_frames : FrameSystem
raced_frames = record {
  shm = race_region 1 cells_4;
  producer = writing (4 ∷ 5 ∷ 6 ∷ []) 1 1;
  consumer = delivered 0 3 pixels;
  frames = pixels ∷ [];
}

first_frame : FrameReach cut_handle (both_rest cut_region []) (record {
  shm = race_region 1 cells_3;
  producer = idle;
  consumer = resting;
  frames = pixels ∷ [];
})
unfolding no_geometry write_volatile
first_frame =
    later
      (later
        (later
          (later (later here (produce (enter pixels refl (omega arith))))
            (produce (store {shm' = race_region 0 cells_1} (omega arith) refl refl)))
          (produce (store {shm' = race_region 0 cells_2} (omega arith) refl refl)))
        (produce (store {shm' = race_region 0 cells_3} (omega arith) refl refl)))
      (produce (publish refl))

pub frame_race : FrameReach cut_handle (both_rest cut_region []) raced_frames
unfolding no_geometry write_volatile read_volatile tear_safe
frame_race =
    later
      (later
        (later
          (later
            (later
              (later (later first_frame (consume (load_count 4 refl (λ e. omega arith))))
                (consume (load_byte (omega arith) refl)))
              (produce (enter (4 ∷ 5 ∷ 6 ∷ []) refl (omega arith))))
            (consume (load_byte (omega arith) refl)))
          (produce (store {shm' = race_region 1 cells_4} (omega arith) refl refl)))
        (consume (load_byte (omega arith) refl)))
      (consume (accept {buf = pixels} refl refl))

frames_untorn_example : IsFrame (pixels ∷ []) 0 3 pixels
frames_untorn_example =
    frames_untorn cut_handle-IsCut cut_handle-HoldsFrames (λ f lt. absurd (omega arith)) frame_race
      refl
