-- ===== src/Guest/Dshow/Grabber.antt =====
-- The audio grabber's callback (dshow.rs) over the audio ring.
use lalah.Base.{
  ℕ, ◌+◌, ◌<◌, ◌≡◌, refl, Bool, true, false, ◌&&◌, Option, none, some, List, [], ◌++◌, length,
  tabulate, if◌then◌else◌, u64_mod,
}
use mathlib.Core.List.{append-nil}
use lalah.Audio.Ring.{Shm, ShmAudioBuffer, newest, push_overwrite}
use lalah.Audio.Ring.Stream.{IsValid, Holds}
use lalah.Audio.Ring.Push.{push_overwrite-Pushed, Pushed-IsValid}
use lalah.Guest.Dshow.{is_positive, audio_buffer_cb}

-- What one call adds to the stream.
abbrev pub grabbed : ShmAudioBuffer → Option (ℕ → ℕ) → (len : ℕ) → (locked : Bool) → List ℕ
grabbed me none len locked = []
grabbed me (some cell) len locked =
    if is_positive len && locked then newest me (tabulate cell 0 len) else []

push_grabbed :
    (me : ShmAudioBuffer) (shm : Shm) (stream : List ℕ) (cell : ℕ → ℕ) (len : ℕ) (b : Bool)
    → IsValid me shm
    → Holds me shm stream
    → length stream + length (if b then newest me (tabulate cell 0 len) else []) < u64_mod
    → (shm' : Shm) × ((if b then push_overwrite me shm (tabulate cell 0 len) else some shm)
        ≡ some shm')
      × IsValid me shm'
      × Holds me shm' (stream ++ (if b then newest me (tabulate cell 0 len) else []))
push_grabbed me shm stream cell len true v h room =
    let (shm', p) = push_overwrite-Pushed v h (tabulate cell 0 len) room in
    (shm', p.returns, Pushed-IsValid v p, p.holds)
push_grabbed me shm stream cell len false v h room = (shm, refl, v, rw append-nil h)

-- On a valid ring that holds a stream, as long as the stream stays shorter than 2^64 bytes, the
-- audio grabber's callback never faults: the newest bytes of the buffer are appended to the
-- stream, and nothing is if the buffer is null, its length is not positive or the lock is not
-- taken.
pub audio_buffer_cb-Holds :
    {me : ShmAudioBuffer} {shm : Shm} {stream : List ℕ}
    → IsValid me shm
    → Holds me shm stream
    → (buffer : Option (ℕ → ℕ)) (len : ℕ) (locked : Bool)
    → length stream + length (grabbed me buffer len locked) < u64_mod
    → (shm' : Shm) × (audio_buffer_cb me shm buffer len locked ≡ some shm')
      × IsValid me shm'
      × Holds me shm' (stream ++ grabbed me buffer len locked)
unfolding audio_buffer_cb
audio_buffer_cb-Holds {shm} v h none len locked room = (shm, refl, v, rw append-nil h)
audio_buffer_cb-Holds {me} {shm} {stream} v h (some cell) len locked room =
    push_grabbed me shm stream cell len (is_positive len && locked) v h room
