-- ===== src/Host/Run/Ends.antt =====
-- How the host's run ends (lalah-host/src/main.rs), and which pages it has touched by then.
use Prim.Native.String.{String}
use lalah.Base.{ℕ, ◌+◌, ◌*◌, ◌/◌, ◌≤◌, ◌≡◌, none, some, List, [], ok, err, tabulate}
use lalah.Audio.Header.{AudioFormat}
use lalah.Host.Args.{HostArgs}
use lalah.Host.Startup.{Started, latency_bytes}
use lalah.Host.Startup.Parts.{too_small}
use lalah.Host.Startup.Layout.{IsPrepared, audio_room}
use lalah.Host.Run.{
  wait_format, HostWorld, VideoCall, HostRun, failed, waiting, playing, has_fifo, video_call, run,
}

-- The pages of a mapping.
abbrev pub pages : ℕ → ℕ
pages total = (total + 4095) / 4096

abbrev pub page_start : ℕ → ℕ
page_start i = i * 4096

-- What comes after the start: the thread's error, the wait, or the playback of the format that was found.
pub data Aftermath (a : HostArgs) (w : HostWorld) (s : Started) : HostRun → Type 0 where
  no_thread :
      (v : VideoCall) (e : String)
      → video_call a s.video a.video_fifo ≡ some v
      → w.spawn_error ≡ some e
      → Aftermath a w s (failed e)
  waits : wait_format w.looks ≡ none → Aftermath a w s waiting
  plays :
      (fmt : AudioFormat)
      → wait_format w.looks ≡ some fmt
      → Aftermath a w s (
          playing (record {
            fmt = fmt;
            ring = s.ring;
            max_latency_bytes = latency_bytes a.latency_ms fmt;
            quantum = a.quantum;
            video = video_call a s.video a.video_fifo;
          }))

-- The ways in which a run can stand: refused, or prepared with every page touched.
pub data HostEnd (fuel : ℕ) (a : HostArgs) (w : HostWorld) : Type 0 where
  not_mapped :
      (e : String) → w.mapping ≡ err e → run fuel a w ≡ some ([], failed e) → HostEnd fuel a w
  too_short :
      (total : ℕ) (touched : List ℕ) (e : String)
      → w.mapping ≡ ok total
      → total ≤ too_small (has_fifo a.video_fifo)
      → run fuel a w ≡ some (touched, failed e)
      → HostEnd fuel a w
  stands :
      (total : ℕ) (s : Started) (r : HostRun)
      → w.mapping ≡ ok total
      → IsPrepared total (audio_room total (has_fifo a.video_fifo)) s
      → run fuel a w ≡ some (tabulate page_start 0 (pages total), r)
      → Aftermath a w s r
      → HostEnd fuel a w
