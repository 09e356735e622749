-- ===== src/Audio/Tests.antt =====
-- Runs of the audio ring on small regions, and the theorems at concrete inputs.
mod Gates
mod Progress
mod Listening
mod Unit
use lalah.Base.{
  ℕ, ◌%◌, ◌+◌, ◌≤◌, ◌≡◌, ◌↔◌, inr, refl, List, [], ◌∷◌, none, some, arith, get_or, ok, err, zero,
  suc,
}
use lalah.Base.Bits.{is_power_of_two}
use lalah.Audio.Header.{ShmHeader, SampleFormat, AudioFormat, shm_magic}
use lalah.Audio.Ring.{
  Shm, ShmAudioBuffer, init, attach, set_format, format, push_overwrite, plan, retry, done,
  read_quantum,
}
use lalah.Audio.Ring.Stream.{IsValid, Holds, Kept}
use lalah.Audio.Ring.Push.{Pushed, push_overwrite-Pushed}
use lalah.Audio.Ring.Window.{plan-head, plan_bounds}
use lalah.Audio.Ring.Read.{read_quantum_returns}
use lalah.Audio.Ring.Spin.{read_quantum_overrun}
use lalah.Audio.Ring.Attach.{
  IsAttachable, Ready, init-Ready, format-set_format, set_format-Holds, attach-IsValid,
}
use lalah.Memory.{Memory, update, read_volatile, write_volatile}
use lalah.Audio.Race.{
  System, writing, delivered, byte_index, Reach, here, later, produce, consume, enter, store, call,
  load_seq, load_tail, load_head, load_byte, load_tail2, accept, store_head,
}
use lalah.Audio.Race.Invariant.{IsSlice}
use lalah.Audio.Race.Safety.{at_rest, reads_untorn}
use lalah.Audio.Ring.{mask, unchanged}
use lalah.Audio.Ring.Frames.{IsAligned, Pushed-IsAligned, plan-IsAligned}

-- A region of zeroes with a ring of 8 bytes.
abbrev blank : ShmHeader
blank = record {
  magic = 0;
  version = 0;
  header_size = 0;
  capacity = 0;
  sample_rate = 0;
  channels = 0;
  format = 0;
  frame_bytes = 0;
  tail = 0;
  seq = 0;
  head = 0;
}

abbrev pub zeroes : Shm
zeroes = record { hdr = blank; payload = record { size = 8; cell = λ _. 0 } }

abbrev pub handle : ShmAudioBuffer
handle = record { cap = 8 }

abbrev ready_header : ShmHeader
ready_header = record blank { magic = shm_magic; version = 1; header_size = 192; capacity = 8 }

abbrev pub ready : Shm
ready = record zeroes { hdr = ready_header }

abbrev pub stereo : AudioFormat
stereo = record {
  sample_rate = 48_000;
  channels = 1;
  format = SampleFormat.s16_le;
  frame_bytes = 2;
}

-- The same region with the format set and four bytes pushed.
abbrev pub playing : Shm
playing = record {
  hdr = record ready_header {
    sample_rate = 48_000;
    channels = 1;
    frame_bytes = 2;
    tail = 4;
    seq = 2;
  };
  payload = record { size = 8; cell = λ i. get_or (1 ∷ 2 ∷ 3 ∷ 4 ∷ 0 ∷ 0 ∷ 0 ∷ 0 ∷ []) i 0 };
}

abbrev pub four : List ℕ
four = 1 ∷ 2 ∷ 3 ∷ 4 ∷ []

pub init_runs : init zeroes 200 8 ≡ some (handle, ready)
unfolding init is_power_of_two
init_runs = refl

init_odd_capacity : init zeroes 200 6 ≡ none
unfolding init is_power_of_two
init_odd_capacity = refl

attach_before_init : attach zeroes 200 ≡ err "bad magic (region not initialized yet)"
unfolding attach
attach_before_init = refl

ready-IsValid : IsValid handle ready
ready-IsValid = record { log_cap = 3; cap_pow = refl; fits = omega arith }

ready-Holds : Holds handle ready []
ready-Holds = record { count = refl; small = omega arith; kept = λ p lt. absurd (omega arith) }

pub playing-IsValid : IsValid handle playing
playing-IsValid = record { log_cap = 3; cap_pow = refl; fits = omega arith }

playing-Kept : Kept 8 playing.payload four
playing-Kept zero lt near = refl
playing-Kept (suc zero) lt near = refl
playing-Kept (suc (suc zero)) lt near = refl
playing-Kept (suc (suc (suc zero))) lt near = refl
playing-Kept (suc (suc (suc (suc p)))) lt near = absurd (omega arith)

pub playing-Holds : Holds handle playing four
playing-Holds = record { count = refl; small = omega arith; kept = playing-Kept }

playing-IsAligned : IsAligned playing
playing-IsAligned = record { tail_at = refl; head_at = refl }

push_overwrite-Pushed_example :
    (shm' : Shm) × Pushed handle playing four (5 ∷ 6 ∷ 7 ∷ 8 ∷ 9 ∷ 10 ∷ []) shm'
push_overwrite-Pushed_example =
    push_overwrite-Pushed playing-IsValid playing-Holds (5 ∷ 6 ∷ 7 ∷ 8 ∷ 9 ∷ 10 ∷ []) (omega arith)

read_quantum_returns_example :
    read_quantum 1 handle playing 6 100
    ≡ some (
        done
          (record playing { hdr = record playing.hdr { head = 4 } })
          (1 ∷ 2 ∷ 3 ∷ 4 ∷ 0 ∷ 0 ∷ [])
          4)
unfolding plan
read_quantum_returns_example =
    read_quantum_returns playing-IsValid playing-Holds refl 6 100 (inr (omega arith)) 0

-- Ten bytes have gone into the ring of eight, and none has been read.
abbrev overrun : Shm
overrun = record {
  hdr = record ready_header {
    sample_rate = 48_000;
    channels = 1;
    frame_bytes = 2;
    tail = 10;
    seq = 2;
  };
  payload = record { size = 8; cell = λ i. get_or (8 ∷ 9 ∷ 2 ∷ 3 ∷ 4 ∷ 5 ∷ 6 ∷ 7 ∷ []) i 0 };
}

abbrev ten : List ℕ
ten = 0 ∷ 1 ∷ 2 ∷ 3 ∷ 4 ∷ 5 ∷ 6 ∷ 7 ∷ 8 ∷ 9 ∷ []

overrun-Kept : Kept 8 overrun.payload ten
overrun-Kept zero lt near = absurd (omega arith)
overrun-Kept (suc zero) lt near = absurd (omega arith)
overrun-Kept (suc (suc zero)) lt near = refl
overrun-Kept (suc (suc (suc zero))) lt near = refl
overrun-Kept (suc (suc (suc (suc zero)))) lt near = refl
overrun-Kept (suc (suc (suc (suc (suc zero))))) lt near = refl
overrun-Kept (suc (suc (suc (suc (suc (suc zero)))))) lt near = refl
overrun-Kept (suc (suc (suc (suc (suc (suc (suc zero))))))) lt near = refl
overrun-Kept (suc (suc (suc (suc (suc (suc (suc (suc zero)))))))) lt near = refl
overrun-Kept (suc (suc (suc (suc (suc (suc (suc (suc (suc zero))))))))) lt near = refl
overrun-Kept (suc (suc (suc (suc (suc (suc (suc (suc (suc (suc p)))))))))) lt near =
    absurd (omega arith)

read_quantum_overrun_example : read_quantum 5 handle overrun 4 100 ≡ some retry
read_quantum_overrun_example =
    read_quantum_overrun {me = handle} {shm = overrun} {stream = ten}
      (record { log_cap = 3; cap_pow = refl; fits = omega arith })
      (record { count = refl; small = omega arith; kept = overrun-Kept }) refl 4 100 (omega arith)
      (omega arith) (omega arith) 5

-- A read of two bytes has passed its recheck, a push of two more has stored its first byte, and the
-- read has stored the new head.
abbrev pub raced : System
raced = record {
  shm = record {
    hdr = record playing.hdr { seq = 3; head = 2 };
    payload = record { size = 8; cell = update playing.payload.cell 4 5 };
  };
  producer = writing (5 ∷ 6 ∷ []) 4 2 1;
  consumer = delivered (record { head = 0; want = 2 }) (1 ∷ 2 ∷ []);
  stream = four;
}

pub race : Reach handle (at_rest playing four) raced
unfolding plan mask byte_index read_volatile write_volatile unchanged
race =
    later
      (later
        (later
          (later
            (later
              (later
                (later
                  (later
                    (later (later (later here (consume (call 2 100))) (consume (load_seq refl)))
                      (consume load_tail))
                    (consume load_head))
                  (consume (load_byte (omega arith) refl)))
                (consume (load_byte (omega arith) refl)))
              (consume (load_tail2 {buf = 1 ∷ 2 ∷ []} refl)))
            (consume (accept refl)))
          (produce (enter (5 ∷ 6 ∷ []) (omega arith) (omega arith) (omega arith))))
        (produce (
          store
            {shm' = record { hdr = record playing.hdr { seq = 3 }; payload = raced.shm.payload }}
            (omega arith) refl refl)))
      (consume store_head)

reads_untorn_example : IsSlice four (record { head = 0; want = 2 }) (1 ∷ 2 ∷ [])
reads_untorn_example = reads_untorn playing-IsValid playing-Holds refl race refl
