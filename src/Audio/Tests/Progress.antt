-- ===== src/Audio/Tests/Progress.antt =====
-- The steps that a push and a read take, in runs of the race.
use lalah.Base.{◌<◌, ◌≤◌, ◌≡◌, ◌⊎◌, refl, [], ◌∷◌, arith}
use lalah.Memory.{update, read_volatile, write_volatile}
use lalah.Audio.Ring.{plan, mask, unchanged}
use lalah.Audio.Race.{
  System, idle, writing, closing, Consumer, resting, top, got_tail, got_tail2, byte_index, Reach,
  here, later, produce, consume, enter, store, publish, call, load_seq, load_tail, load_head,
  load_byte, load_tail2, return,
}
use lalah.Audio.Race.Safety.{at_rest}
use lalah.Audio.Race.Writes.{Interleaved, rests, pushes, reads, CanPush, push_ends}
use lalah.Audio.Race.Rounds.{refused_moved}
use lalah.Audio.Race.Alone.{Alone, CanRead, read_alone_ends}
use lalah.Audio.Tests.{handle, playing, four, playing-IsValid, playing-Holds, raced, race}

-- The push under way in `race` has stored its last byte, published and is about to leave.
abbrev almost : System
almost = record {
  shm = record {
    hdr = record playing.hdr { seq = 3; head = 2; tail = 6 };
    payload = record { size = 8; cell = update raced.shm.payload.cell 5 6 };
  };
  producer = closing 2;
  consumer = resting;
  stream = 1 ∷ 2 ∷ 3 ∷ 4 ∷ 5 ∷ 6 ∷ [];
}

two_steps : Interleaved handle raced 2 almost
unfolding mask byte_index write_volatile
two_steps =
    pushes (λ e. absurd (ground arith))
      (store
        {shm' = record raced.shm {
          payload = record { size = 8; cell = update raced.shm.payload.cell 5 6 };
        }}
        (omega arith) refl refl)
      (reads return (pushes (λ e. absurd (ground arith)) (publish refl) rests))

push_ends_example : (2 ≤ 3) × ((closing 2 ≡ idle) ⊎ CanPush handle almost.shm (closing 2))
push_ends_example = push_ends playing-IsValid playing-Holds refl race two_steps

-- A read with a budget of four bytes has begun, and goes on alone.
abbrev begun : Consumer → System
begun c = record { shm = playing; producer = idle; consumer = c; stream = four }

call_made : Reach handle (at_rest playing four) (begun (top 2 4 2))
call_made = later here (consume (call 2 4))

two_loads : Alone handle (begun (top 2 4 2)) 2 (begun (got_tail 2 4 2 2 4))
two_loads =
    Alone.reads (λ e. absurd (ground arith)) (load_seq refl)
      (Alone.reads (λ e. absurd (ground arith)) load_tail Alone.rests)

read_alone_ends_example :
    (2 ≤ 9) × ((got_tail 2 4 2 2 4 ≡ resting) ⊎ CanRead handle playing (got_tail 2 4 2 2 4))
read_alone_ends_example =
    read_alone_ends playing-IsValid playing-Holds refl call_made refl refl (omega arith) two_loads

-- A push begins while the read is between its copy and its recheck.
abbrev disturbed : System
disturbed = record {
  shm = record playing { hdr = record playing.hdr { seq = 3 } };
  producer = writing (5 ∷ 6 ∷ []) 4 2 0;
  consumer = got_tail2 2 4 2 2 (record { head = 0; want = 2 }) (1 ∷ 2 ∷ []) 4;
  stream = four;
}

disturbed_reached : Reach handle (at_rest playing four) disturbed
unfolding plan mask byte_index read_volatile
disturbed_reached =
    later
      (later
        (later
          (later
            (later (later (later call_made (consume (load_seq refl))) (consume load_tail))
              (consume load_head))
            (consume (load_byte (omega arith) refl)))
          (consume (load_byte (omega arith) refl)))
        (consume (load_tail2 {buf = 1 ∷ 2 ∷ []} refl)))
      (produce (enter (5 ∷ 6 ∷ []) (omega arith) (omega arith) (omega arith)))

refused_moved_example : 2 < 3
unfolding unchanged
refused_moved_example =
    refused_moved playing-IsValid playing-Holds refl disturbed_reached refl (omega arith) refl
