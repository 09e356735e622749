-- ===== src/Guest/Run.antt =====
-- `run` of packages/lalah-vm/src/main.rs: the region, the attach loops, the keep-alive, and the choice of
-- the capture path. The region as it stands at each attempt to attach, and what the keep-alive answers,
-- are arguments; the retry sleeps in between.
pub mod Routes
use Prim.Native.String.{String}
use text.Mathlib.Text.{◌==◌}
use lalah.Base.{
  ℕ, Bool, true, false, not, ◌&&◌, Option, none, some, List, [], ◌∷◌, if◌then◌else◌, Result, ok,
  err,
}
use lalah.Audio.Ring.{Shm, ShmAudioBuffer, attach}
use lalah.Video.Header.{video_region}
use lalah.Video.Ring.{VideoShm, ShmVideoBuffer, attach as attach_video}
use lalah.Guest.Args.{Args}

abbrev pub first_ok {ℓ} : {A : Type ℓ} → Result A String → Option A → Option A
first_ok (ok a) rest = some a
first_ok (err e) rest = rest

-- The loop around `ShmAudioBuffer::attach`; `none` while every attempt so far has failed.
unfoldable pub attach_loop : (len : ℕ) → List Shm → Option ShmAudioBuffer
attach_loop len [] = none
attach_loop len (shm ∷ later) = first_ok (attach shm len) (attach_loop len later)

unfoldable pub attach_video_loop : (vlen : ℕ) → List VideoShm → Option ShmVideoBuffer
attach_video_loop vlen [] = none
attach_video_loop vlen (shm ∷ later) =
    first_ok (attach_video shm vlen) (attach_video_loop vlen later)

-- What the run meets: the mapping's length or an error, the region at each attempt, and whether the
-- keep-alive starts.
pub record World : Type 0 where
  pub region : Result ℕ String
  pub audio : List Shm
  pub video : List VideoShm
  pub keep_alive_starts : Bool

-- The arguments of `VideoKeepAlive::start`.
pub record KeepAliveCall : Type 0 where
  pub name_filter : Option String
  pub use_null_renderer : Bool

-- The two captures, with their arguments.
pub data Route : Type 0 where
  dshow :
      (audio_device video_device renderer : Option String) (video_ring : Option ShmVideoBuffer)
      → Route
  wasapi : (device_id : String) → Route

-- What stands when the capture is called.
pub record Capture : Type 0 where
  pub ring : ShmAudioBuffer
  pub keep_alive : Option KeepAliveCall
  pub route : Route

pub data Run : Type 0 where
  failed : (error : String) → Run
  waiting_for_ring : Run
  waiting_for_video : Run
  capturing : Capture → Run

-- The keep-alive, if it is asked for and starts.
unfoldable pub keep_alive_of : Args → (starts : Bool) → Option KeepAliveCall
keep_alive_of a starts =
    if not a.ds_audio && a.video_keepalive && starts
    then some
        (record { name_filter = a.video_device; use_null_renderer = a.video_renderer == "null" })
    else none

unfoldable pub route_of : Args → Option ShmVideoBuffer → Route
route_of a video_ring =
    if a.ds_audio
    then dshow a.audio_device a.video_device
        (if a.video_keepalive then some a.video_renderer else none) video_ring
    else wasapi a.device_id

abbrev pub capture_with : Args → World → ShmAudioBuffer → Option ShmVideoBuffer → Run
capture_with a w ring video_ring = capturing (record {
  ring = ring;
  keep_alive = keep_alive_of a w.keep_alive_starts;
  route = route_of a video_ring;
})

abbrev pub with_attached : Args → World → ShmAudioBuffer → Option ShmVideoBuffer → Run
with_attached a w ring none = waiting_for_video
with_attached a w ring (some v) = capture_with a w ring (some v)

abbrev pub with_region : Args → World → ShmAudioBuffer → Option (ℕ × ℕ) → Run
with_region a w ring none = capture_with a w ring none
with_region a w ring (some (vbase, vlen)) = with_attached a w ring (attach_video_loop vlen w.video)

abbrev pub with_ring : Args → World → (len : ℕ) → Option ShmAudioBuffer → Run
with_ring a w len none = waiting_for_ring
with_ring a w len (some ring) =
    if a.video_passthrough
    then with_region a w ring (video_region len)
    else capture_with a w ring none

abbrev pub with_mapping : Args → World → Result ℕ String → Run
with_mapping a w (err e) = failed e
with_mapping a w (ok len) = with_ring a w len (attach_loop len w.audio)

unfoldable pub run : Args → World → Run
unfolding attach_loop attach_video_loop keep_alive_of route_of
run a w = with_mapping a w w.region
