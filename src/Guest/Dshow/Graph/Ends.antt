-- ===== src/Guest/Dshow/Graph/Ends.antt =====
-- The ends of `capture_dshow_audio`.
use Prim.Native.String.{String}
use text.Mathlib.Text.{◌==◌}
use lalah.Base.{ℕ, ◌≡◌, ◌⊎◌, Bool, Option, none, some, ok, err}
use lalah.Audio.Header.{AudioFormat}
use lalah.Audio.Ring.{Shm, set_format}
use lalah.Video.Header.{VideoFormat}
use lalah.Video.Ring.{VideoShm, ShmVideoBuffer, set_geometry}
use lalah.Guest.Devices.{DeviceError, hresult}
use lalah.Guest.Dshow.{parse_wfx, parse_video_format}
use lalah.Guest.Dshow.Graph.{
  GraphAnswers, VideoUse, no_video, forwarding, rendering, GraphEnd, running, refused,
}

-- Why a running graph leaves the picture alone: none is asked for, there is no device, or the frames do
-- not fit the sub-region.
pub data WhySilent (a : GraphAnswers) (vshm : VideoShm) (renderer : Option String)
    (video_ring : Option ShmVideoBuffer) : Type 0 where
  not_asked : renderer ≡ none → video_ring ≡ none → WhySilent a vshm renderer video_ring
  no_device : (e : DeviceError) → a.find_video_source ≡ err e → WhySilent a vshm renderer video_ring
  too_large :
      (vid : ShmVideoBuffer) (vf : VideoFormat) (e : String)
      → video_ring ≡ some vid
      → parse_video_format a.video_connected ≡ some vf
      → (set_geometry vid vshm vf).2 ≡ err e
      → WhySilent a vshm renderer video_ring

-- The use of the picture, and the sub-region that goes with it.
pub data VideoEnd (a : GraphAnswers) (vshm : VideoShm) (renderer : Option String)
    (video_ring : Option ShmVideoBuffer) : VideoUse → VideoShm → Type 0 where
  silent : WhySilent a vshm renderer video_ring → VideoEnd a vshm renderer video_ring no_video vshm
  forwards :
      {vid vid' : ShmVideoBuffer} {vshm' : VideoShm} {vf : VideoFormat} {slots : ℕ}
      → video_ring ≡ some vid
      → parse_video_format a.video_connected ≡ some vf
      → set_geometry vid vshm vf ≡ (vid', vshm', ok slots)
      → VideoEnd a vshm renderer video_ring (forwarding vid') vshm'
  renders :
      {r : String}
      → renderer ≡ some r
      → video_ring ≡ none
      → VideoEnd a vshm renderer video_ring (rendering (r == "null")) vshm

-- A graph that runs has stored the format; an error leaves the audio region as it is, but for one of the
-- two calls behind the store.
pub data DshowEnd (a : GraphAnswers) (shm : Shm) (vshm : VideoShm) (renderer : Option String)
    (video_ring : Option ShmVideoBuffer) : GraphEnd → Type 0 where
  runs :
      {fmt : AudioFormat} {vshm' : VideoShm} {routed : Bool} {u : VideoUse}
      → parse_wfx a.connected ≡ some fmt
      → VideoEnd a vshm renderer video_ring u vshm'
      → DshowEnd a shm vshm renderer video_ring (running (set_format shm fmt) vshm' routed u)
  closed :
      {e : DeviceError} {vshm' : VideoShm}
      → DshowEnd a shm vshm renderer video_ring (refused e shm vshm')
  published :
      {fmt : AudioFormat} {e : ℕ} {vshm' : VideoShm}
      → parse_wfx a.connected ≡ some fmt
      → (a.set_callback ≡ some e) ⊎ (a.run ≡ some e)
      → DshowEnd a shm vshm renderer video_ring (refused (hresult e) (set_format shm fmt) vshm')

module _ (a : GraphAnswers) (shm : Shm) (vshm : VideoShm) (renderer : Option String)
    (video_ring : Option ShmVideoBuffer) where
  abbrev End : GraphEnd → Type 0
  End = DshowEnd a shm vshm renderer video_ring
