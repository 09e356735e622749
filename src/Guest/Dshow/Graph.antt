-- ===== src/Guest/Dshow/Graph.antt =====
-- `capture_dshow_audio` of packages/lalah-vm/src/dshow.rs up to its endless sleep: the graph that is built,
-- what is published in the two headers, and the errors. The answers of DirectShow are arguments; calls
-- in a row, each with its `?`, are a list.
pub mod Ends
use Prim.Native.String.{String}
use text.Mathlib.Text.{◌==◌}
use lalah.Base.{
  ℕ, is_some, Bool, true, false, not, ◌||◌, ◌&&◌, Option, none, some, List, if◌then◌else◌, Result,
  ok, err,
}
use lalah.Base.Checks.{check, first_error}
use lalah.Audio.Header.{AudioFormat}
use lalah.Audio.Ring.{Shm, set_format}
use lalah.Video.Header.{VideoFormat}
use lalah.Video.Ring.{VideoShm, ShmVideoBuffer, set_geometry}
use lalah.Guest.Devices.{DeviceError, e_fail, hresult}
use lalah.Guest.Dshow.{AudioMediaType, parse_wfx, VideoMediaType, parse_video_format}

pub record GraphAnswers : Type 0 where
  pub set_up : List (Option ℕ)
  pub find_video_source : Result ℕ DeviceError
  pub add_video_source : Option ℕ
  pub audio_grabber : List (Option ℕ)
  pub route_from_video : Option ℕ
  pub find_audio_source : Result ℕ DeviceError
  pub route_from_audio : List (Option ℕ)
  pub video_grabber : List (Option ℕ)
  pub video_connected : VideoMediaType
  pub set_video_callback : Option ℕ
  pub null_renderer : List (Option ℕ)
  pub render_video : Option ℕ
  pub get_connected : Option ℕ
  pub connected : AudioMediaType
  pub set_callback : Option ℕ
  pub run : Option ℕ

-- What becomes of the picture: nothing, frames forwarded by a handle, or a renderer, the null renderer
-- or a window.
pub data VideoUse : Type 0 where
  no_video : VideoUse
  forwarding : ShmVideoBuffer → VideoUse
  rendering : (null : Bool) → VideoUse

-- The graph runs, or the call has returned an error; with the two regions as they are then.
pub data GraphEnd : Type 0 where
  running : Shm → VideoShm → (audio_from_video : Bool) → VideoUse → GraphEnd
  refused : DeviceError → Shm → VideoShm → GraphEnd

abbrev pub fails : Shm → VideoShm → (e : ℕ) → GraphEnd
fails shm vshm e = refused (hresult e) shm vshm

-- The format is published, and then the callback is set and the graph run.
abbrev pub publish :
    GraphAnswers
    → Shm
    → VideoShm
    → (audio_from_video : Bool) → VideoUse
    → Option AudioFormat
    → GraphEnd
publish a shm vshm routed use_of none = refused e_fail shm vshm
publish a shm vshm routed use_of (some fmt) =
    let set : Shm = set_format shm fmt in
    check a.set_callback (fails set vshm)
      (check a.run (fails set vshm) (running set vshm routed use_of))

abbrev pub read_format : GraphAnswers → Shm → VideoShm → Bool → VideoUse → GraphEnd
read_format a shm vshm routed use_of =
    check a.get_connected (fails shm vshm)
      (publish a shm vshm routed use_of (parse_wfx a.connected))

-- A geometry that is refused is no error.
abbrev pub forward :
    GraphAnswers → Shm → Bool → ShmVideoBuffer × VideoShm × Result ℕ String → GraphEnd
forward a shm routed (vid, vshm, ok slots) =
    check a.set_video_callback (fails shm vshm) (read_format a shm vshm routed (forwarding vid))
forward a shm routed (vid, vshm, err e) = read_format a shm vshm routed no_video

abbrev pub grab_video :
    GraphAnswers → Shm → VideoShm → Bool → ShmVideoBuffer → Option VideoFormat → GraphEnd
grab_video a shm vshm routed vid none = refused e_fail shm vshm
grab_video a shm vshm routed vid (some vf) = forward a shm routed (set_geometry vid vshm vf)

abbrev pub render : GraphAnswers → Shm → VideoShm → Bool → (renderer : String) → GraphEnd
render a shm vshm routed renderer =
    let drawn : GraphEnd =
      check a.render_video (fails shm vshm)
        (read_format a shm vshm routed (rendering (renderer == "null"))) in
    if renderer == "null" then check (first_error a.null_renderer) (fails shm vshm) drawn else drawn

-- The picture, if there is a video source.
abbrev pub with_picture :
    GraphAnswers
    → Shm
    → VideoShm
    → Bool
    → (renderer : Option String) → Option ShmVideoBuffer
    → (source : Bool) → GraphEnd
with_picture a shm vshm routed renderer video_ring false = read_format a shm vshm routed no_video
with_picture a shm vshm routed renderer (some vid) true =
    check (first_error a.video_grabber) (fails shm vshm)
      (grab_video a shm vshm routed vid (parse_video_format a.video_connected))
with_picture a shm vshm routed (some renderer) none true = render a shm vshm routed renderer
with_picture a shm vshm routed none none true = read_format a shm vshm routed no_video

-- The fallback to an audio device.
abbrev pub with_audio :
    GraphAnswers
    → Shm
    → VideoShm
    → Option String
    → Option ShmVideoBuffer
    → (source : Bool) → Result ℕ DeviceError
    → GraphEnd
with_audio a shm vshm renderer video_ring source (err e) = refused e shm vshm
with_audio a shm vshm renderer video_ring source (ok device) =
    check (first_error a.route_from_audio) (fails shm vshm)
      (with_picture a shm vshm false renderer video_ring source)

abbrev pub route :
    GraphAnswers
    → Shm
    → VideoShm
    → Option String
    → Option ShmVideoBuffer
    → (source : Bool) → GraphEnd
route a shm vshm renderer video_ring source = check (first_error a.audio_grabber) (fails shm vshm) (
    if source && not (is_some a.route_from_video)
    then with_picture a shm vshm true renderer video_ring source
    else with_audio a shm vshm renderer video_ring source a.find_audio_source)

-- No video device is no error.
abbrev pub with_source :
    GraphAnswers
    → Shm
    → VideoShm
    → Option String
    → Option ShmVideoBuffer
    → Result ℕ DeviceError
    → GraphEnd
with_source a shm vshm renderer video_ring (err e) = route a shm vshm renderer video_ring false
with_source a shm vshm renderer video_ring (ok device) =
    check a.add_video_source (fails shm vshm) (route a shm vshm renderer video_ring true)

unfoldable pub capture_dshow_audio :
    GraphAnswers
    → Shm
    → VideoShm
    → (video_renderer_type : Option String) → (video_ring : Option ShmVideoBuffer) → GraphEnd
capture_dshow_audio a shm vshm renderer video_ring = check (first_error a.set_up) (fails shm vshm) (
    if is_some renderer || is_some video_ring
    then with_source a shm vshm renderer video_ring a.find_video_source
    else route a shm vshm renderer video_ring false)
