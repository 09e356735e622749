-- ===== src/Audio/Tests/Gates.antt =====
-- The gates of the audio header at concrete inputs.
use lalah.Base.{◌<◌, ◌≤◌, ◌≡◌, ◌⊎◌, refl, none, arith, ok, err}
use lalah.Audio.Ring.{format, set_format}
use lalah.Audio.Publish.{attach_loads, format_loads}
use lalah.Audio.Publish.Gates.{init_after, format_after, attach-init, format-publish}
use lalah.Audio.Tests.{zeroes, handle, ready, stereo, init_runs}

-- The region is unprepared, and `attach` loads while `init` is under way and after it.
attach-init_example :
    ((5 < 11)
      × (attach_loads 200
            (init_after zeroes 8 5)
            (init_after zeroes 8 7)
            (init_after zeroes 8 11)
            (init_after zeroes 8 12)
          ≡ err "bad magic (region not initialized yet)"))
    ⊎ ((11 ≤ 5)
        × (attach_loads 200
              (init_after zeroes 8 5)
              (init_after zeroes 8 7)
              (init_after zeroes 8 11)
              (init_after zeroes 8 12)
            ≡ ok handle)
        × (init_after zeroes 8 12 ≡ ready.hdr))
attach-init_example =
    attach-init zeroes {t0 = 5} {t1 = 7} {t2 = 11} {t3 = 12} (omega arith) (omega arith)
      (omega arith) 200 8 (λ e. omega arith) init_runs

format-publish_example :
    ((4 < 4)
      × (format_loads
            (format_after ready stereo 4)
            (format_after ready stereo 4)
            (format_after ready stereo 5)
            (format_after ready stereo 6)
          ≡ none))
    ⊎ ((4 ≤ 4)
        × (format_loads
              (format_after ready stereo 4)
              (format_after ready stereo 4)
              (format_after ready stereo 5)
              (format_after ready stereo 6)
            ≡ format (set_format ready stereo)))
format-publish_example =
    format-publish ready {t0 = 4} {t1 = 4} {t2 = 5} {t3 = 6} (omega arith) (omega arith)
      (omega arith) stereo refl
