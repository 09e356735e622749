-- ===== src/Video/Tests/Frames.antt =====
-- The frame ring from end to end at a concrete input.
use lalah.Base.{◌≡◌, refl, [], ◌∷◌, some, arith, ok}
use lalah.Video.Header.{align_up_64}
use lalah.Video.Ring.{VideoShm, unset, init, attach, set_geometry, refresh_geometry, read_frame}
use lalah.Video.Tests.{opened, tiny, cut_handle, cut_region, pixels, pixels-AreBytes}
use lalah.Session.Frames.{push_all, frames_session}

abbrev unprepared : VideoShm
unprepared = record opened { hdr = record opened.hdr { magic = 0 } }

prepares : init unprepared 328 ≡ some (unset 328, opened)
unfolding init
prepares = refl

frames_session_example :
    (attach opened 328 ≡ ok (unset 328))
    × ((shm' : VideoShm) × (push_all cut_handle cut_region (pixels ∷ []) ≡ some shm')
        × ((refresh_geometry (unset 328) shm').1 ≡ some tiny)
        × (read_frame (refresh_geometry (unset 328) shm').0 shm' (0 ∷ 0 ∷ 0 ∷ 6 ∷ [])
            ≡ some (7 ∷ 8 ∷ 9 ∷ 6 ∷ [], some 0)))
unfolding set_geometry align_up_64
frames_session_example =
    frames_session unprepared 328 tiny (omega arith) (λ j. omega arith) prepares (omega arith)
      (omega arith) (omega arith) (pixels ∷ []) (pixels-AreBytes, tt) (omega arith)
      (0 ∷ 0 ∷ 0 ∷ 6 ∷ [])
