-- ===== src/Guest/Tests/KeepAlive.antt =====
-- Lives of a keep-alive, and its theorems at concrete states.
use lalah.Base.{◌≤◌, ◌≡◌, ◌⊎◌, refl, true, false, none, some, ok, err}
use lalah.Guest.KeepAlive.{
  EventCodes, is_halt, polling, restarting, finished, holding, stopping, refused, KeepAlive, poll,
  graph_after, WorkerStep, open_ok, open_err, send_ok, send_err, round, leave, spawn, recv_ok,
  recv_err, join_err, shutdown, work, own, Lives, here, later, Works, rests, works,
}
use lalah.Guest.KeepAlive.Lifetime.{is_ok, held_lem, shutdown_ends}

abbrev codes : EventCodes
codes = record { ec_complete = 1; ec_errorabort = 3; ec_userabort = 2 }

-- The value is held, and the graph has just halted.
abbrev halted : KeepAlive
halted = record {
  stop = false;
  sent = some (ok "GC573");
  graph = false;
  worker = restarting;
  owner = holding;
}

halts : Lives codes halted
unfolding poll is_halt graph_after
halts =
    later
      (later
        (later (later (later here (own (spawn refl))) (work (open_ok "GC573" refl)))
          (work (send_ok refl)))
        (own (recv_ok refl refl)))
      (work (round (some 3) refl))

held_lem_example :
    ((halted.worker ≡ polling) ⊎ (halted.worker ≡ restarting)) × (is_ok halted.sent ≡ true)
held_lem_example = held_lem halts refl

-- The device is not there.
abbrev given_up : KeepAlive
given_up = record {
  stop = false;
  sent = some (err "open video device");
  graph = false;
  worker = finished;
  owner = refused "open video device";
}

gives_up : Lives codes given_up
gives_up =
    later
      (later
        (later (later (later here (own (spawn refl))) (work (open_err "open video device" refl)))
          (work (send_err refl)))
        (own (recv_err refl refl)))
      (own (join_err refl refl))

-- The value is dropped while the graph runs.
abbrev dropping : KeepAlive
dropping = record {
  stop = true;
  sent = some (ok "GC573");
  graph = true;
  worker = polling;
  owner = stopping;
}

drops : Lives codes dropping
drops =
    later
      (later
        (later (later (later here (own (spawn refl))) (work (open_ok "GC573" refl)))
          (work (send_ok refl)))
        (own (recv_ok refl refl)))
      (own (shutdown refl))

abbrev over : KeepAlive
over = record dropping { worker = finished; graph = false }

ends : Works codes dropping 2 over
unfolding poll graph_after
ends = works (round none refl) (works (leave refl) rests)

shutdown_ends_example :
    (2 ≤ 3) × ((over.worker ≡ finished) ⊎ ((υ : KeepAlive) × WorkerStep codes over υ))
shutdown_ends_example = shutdown_ends drops refl ends
