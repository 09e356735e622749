-- ===== src/Host/Tests/Statistics.antt =====
-- Four reads of the counters, one of which finds nothing new.
use lalah.Base.{◌≡◌, refl, some, List, [], ◌∷◌}
use lalah.Host.Playback.Statistics.{Counts, report}

abbrev at_start : Counts
at_start = record { u = 0; o = 0 }

abbrev reads : List Counts
reads =
    record { u = 2; o = 0 }
    ∷ record { u = 2; o = 0 }
    ∷ record { u = 2; o = 1 }
    ∷ record { u = 5; o = 1 }
    ∷ []

prints :
    report at_start reads
    ≡ some (record { u = 2; o = 0 } ∷ record { u = 0; o = 1 } ∷ record { u = 3; o = 0 } ∷ [])
unfolding report
prints = refl
