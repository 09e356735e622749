-- ===== src/Host/Playback.antt =====
-- The realtime `process` callback of packages/lalah-host/src/playback.rs, between a dequeued buffer
-- and the chunk handed back. PipeWire's part is the length of the buffer's slice, or no slice.
pub mod Latency
pub mod Statistics
pub mod Setup
use lalah.Base.{
  Bool, ℕ, suc, ◌+◌, ◌-◌, ◌*◌, ◌/◌, Option, none, some, List, [], ltb, ◌==◌, if◌then◌else◌, ◌>>=◌,
  wrapping_add,
}
use lalah.Audio.Ring.{Shm, ShmAudioBuffer, pointers, Pass, retry, done, read_quantum}

pub record PlaybackState : Type 0 where
  pub ring : ShmAudioBuffer
  pub max_latency_bytes : ℕ
  pub stride : ℕ
  pub underflows : ℕ
  pub overflows : ℕ

-- The callback is still inside `read_quantum`, or it has returned: its state, the region, the window
-- it has filled, and the size it gives the chunk.
pub data Cycle : Type 0 where
  spinning : Cycle
  returned : PlaybackState → Shm → (filled : List ℕ) (size : ℕ) → Cycle

-- `fetch_add(1)` under a test.
abbrev pub count_if : Bool → ℕ → ℕ
count_if b n = if b then wrapping_add n 1 else n

-- After `read_quantum`, whose buffer is `window` bytes long.
abbrev pub finish : PlaybackState → (window : ℕ) → Pass → Cycle
finish st window retry = spinning
finish st window (done shm filled live) =
    returned (record st { underflows = count_if (ltb live window) st.underflows }) shm filled window

-- The callback with a slice of `slice_len` bytes. `none` is the panic of the division by a stride of 0,
-- or a fault. No push happens meanwhile, and the loop of `read_quantum` takes at most `fuel` rounds.
unfoldable pub process : (fuel : ℕ) → PlaybackState → Shm → (slice_len : Option ℕ) → Option Cycle
process fuel st shm none = some (returned st shm [] 0)
process fuel st shm (some slice_len) =
    if st.stride == 0
    then none
    else read_quantum fuel st.ring shm window budget >>= λ r. some (finish counted window r)
  where
    window : ℕ
    window = slice_len / st.stride * st.stride

    budget : ℕ
    budget = wrapping_add window st.max_latency_bytes

    avail : ℕ
    avail = (pointers shm).1 - (pointers shm).0

    counted : PlaybackState
    counted = record st { overflows = count_if (ltb budget avail) st.overflows }
