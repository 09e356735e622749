-- ===== src/Video/Tests/Gates.antt =====
-- The gates of the video header at concrete inputs.
use lalah.Base.{◌<◌, ◌≤◌, ◌≡◌, ◌⊎◌, refl, none, some, arith, ok, ◌+◌}
use lalah.Video.Ring.{unset, init, set_geometry, refresh_geometry, VideoShm}
use lalah.Video.Publish.{refresh_loads}
use lalah.Video.Header.{align_up_64}
use lalah.Video.Publish.Gates.{geometry_after, geometry-publish}
use lalah.Video.Tests.{opened, tiny, cut_handle, cut_region}

abbrev raw : VideoShm
raw = record opened { hdr = record opened.hdr { magic = 0 } }

raw_opens : init raw 328 ≡ some (unset 328, opened)
unfolding init
raw_opens = refl

tiny_set : set_geometry (unset 328) opened tiny ≡ (cut_handle, cut_region, ok 3)
unfolding set_geometry align_up_64
tiny_set = refl

geometry-publish_example :
    ((7 < 7)
      × (refresh_loads (unset 328) (λ i. geometry_after opened tiny 3 (7 + i)) ≡ (unset 328, none)))
    ⊎ ((7 ≤ 7)
        × (refresh_loads (unset 328) (λ i. geometry_after opened tiny 3 (7 + i))
            ≡ refresh_geometry (unset 328) cut_region))
geometry-publish_example =
    geometry-publish opened (λ i. 7 + i) (λ i j le. omega arith) (unset 328) (unset 328) tiny refl
      tiny_set
