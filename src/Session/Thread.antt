-- ===== src/Session/Thread.antt =====
-- The host's video thread (packages/lalah-host/src/video.rs) and the guest's captured frames
-- (packages/shared/src/lib.rs), from the preparation of the sub-region on.
use Prim.Native.String.{String}
use lalah.Base.{
  ℕ, zero, suc, ◌+◌, ◌≤◌, ◌<◌, ◌≡◌, ◌≢◌, refl, sym, subst, ap, ap₂, ◌∙◌, Option, none, some, List,
  [], ◌∷◌, ◌++◌, map, arith, length, length-append, length-replicate, replicate, ok, u64_mod,
  u32_mod,
}
use mathlib.Core.Option.{some-injective}
use lalah.Video.Header.{VideoFormat, video_min_slots, size_of_video_header}
use lalah.Video.Ring.{
  VideoShm, ShmVideoBuffer, unset, init, set_geometry, refresh_geometry, frame_count,
}
use lalah.Video.Ring.Geometry.{Published, slots, set_geometry-Published, init_unset}
use lalah.Host.Forward.{Moment, begin, Handed, run_loop}
use lalah.Host.Forward.Fifo.{make_fifo}
use lalah.Host.Forward.Thread.{wait_geometry, moment_of, VideoWorld, forwarding, run_video}
use lalah.Host.Forward.Frames.{AreMonotone, AreCut, IsRising, run_loop-IsRising_from}
use lalah.Session.Frames.{
  push_all, AllBytes, frames_of, length-frames_of, push_all-PushedAll, Published-HoldsFrames,
}
use lalah.Session.Watched.{Watched, nothing, watch, Sized, ArePushed, pushed_to}
use lalah.Session.Forward.{frames_of-append, run_loop-ArePushed}

count_of :
    {me : ShmVideoBuffer} {shm : VideoShm} {frames : List (List ℕ)}
    → Sized me shm frames
    → frame_count shm ≡ length frames
unfolding frame_count
count_of s = s.holds.count

-- While the guest pushes, the count never goes back and every read finds its slots.
Watched-both :
    {me : ShmVideoBuffer} {shm : VideoShm} {ms : List Moment} {srcs : List (List ℕ)}
    (frames : List (List ℕ)) (lo : ℕ)
    → Watched me shm ms srcs
    → Sized me shm frames
    → lo ≤ length frames
    → length frames + length srcs < u64_mod
    → AreMonotone lo ms × AreCut me ms
Watched-both frames lo nothing s le room = (tt, tt)
Watched-both {me} frames lo (watch {m} {later} a b c ba bb bc ea eb ec w) s le room =
    let total : length (a ++ b ++ c ++ later) ≡ length a + length b + length c + length later =
      omega
        (arith, length-append (a ++ b ++ c) later, length-append (a ++ b) c, length-append a b) in
    let at_poll = frames ++ frames_of me a in
    let at_read = at_poll ++ frames_of me b in
    let after = at_read ++ frames_of me c in
    let n1 : length at_poll ≡ length frames + length a =
      omega (arith, length-append frames (frames_of me a), length-frames_of me a) in
    let n2 : length at_read ≡ length at_poll + length b =
      omega (arith, length-append at_poll (frames_of me b), length-frames_of me b) in
    let n3 : length after ≡ length at_read + length c =
      omega (arith, length-append at_read (frames_of me c), length-frames_of me c) in
    let s1 = pushed_to a s ba (omega (arith, room, total)) ea in
    let s2 = pushed_to b s1 bb (omega (arith, room, total, n1)) eb in
    let s3 = pushed_to c s2 bc (omega (arith, room, total, n1, n2)) ec in
    let (mono, cut) =
      Watched-both after (frame_count m.after_read) w s3 (omega (arith, count_of s3))
        (omega (arith, room, total, n1, n2, n3)) in
    (
      (
        omega (arith, le, count_of s1, n1),
        omega (arith, count_of s1, count_of s2, n2),
        omega (arith, count_of s2, count_of s3, n3),
        mono,
      ),
      (s2.cut, s2.holds.bytes, cut),
    )

set_geometry_len :
    (me : ShmVideoBuffer) (shm : VideoShm) (vf : VideoFormat)
    → (set_geometry me shm vf).0.region_len ≡ me.region_len
unfolding set_geometry
set_geometry_len me shm vf = ground arith

-- The wait passes over regions whose geometry is unset.
wait_geometry_lem :
    (host me : ShmVideoBuffer) (vf : VideoFormat) (before seen : VideoShm) (later : List VideoShm)
    (k : ℕ)
    → refresh_geometry host before ≡ (host, none)
    → refresh_geometry host seen ≡ (me, some vf)
    → wait_geometry host (replicate k before ++ seen ∷ later) ≡ some (me, vf)
unfolding wait_geometry
wait_geometry_lem host me vf before seen later zero e f = rw f refl
wait_geometry_lem host me vf before seen later (suc k) e f =
    rw e (wait_geometry_lem host me vf before seen later k e f)

-- What the thread does once it has found the geometry and made the pipe.
run_video_at :
    (vid me : ShmVideoBuffer) (vf : VideoFormat) (fifo_path : String) (pipe_size : ℕ)
    (w : VideoWorld) (hs : List Handed)
    → wait_geometry vid w.looks ≡ some (me, vf)
    → make_fifo fifo_path w.mkfifo ≡ ok tt
    → run_loop me (begin me w.at_start) (map (moment_of fifo_path pipe_size) w.rounds) ≡ some hs
    → run_video vid fifo_path pipe_size w ≡ some (forwarding hs)
unfolding run_video
run_video_at vid me vf fifo_path pipe_size w hs e f g = rw (e, f, g) refl

-- The loop over a region that the guest pushes into.
forwards :
    {me : ShmVideoBuffer} {shm : VideoShm} {ms : List Moment} {srcs frames : List (List ℕ)}
    → Watched me shm ms srcs
    → Sized me shm frames
    → length frames + length srcs < u64_mod
    → (hs : List Handed) × (run_loop me (begin me shm) ms ≡ some hs)
      × IsRising (length frames) hs
      × ArePushed (frames ++ frames_of me srcs) hs
forwards {me} {shm} {ms} {frames} watched s room =
    let (mono, cut) = Watched-both frames (length frames) watched s (omega arith) room in
    let (hs, e, rising) =
      run_loop-IsRising_from me (begin me shm) ms (length frames) (omega (arith, count_of s)) mono
        cut in
    let (hs', e', pushed) =
      run_loop-ArePushed frames (begin me shm) watched s (length-replicate me.frame_size 0) room in
    (
      hs,
      e,
      subst (λ n. IsRising n hs) (count_of s) rising,
      subst (ArePushed _) (some-injective hs' hs (sym e' ∙ e)) pushed,
    )

module _ (shm : VideoShm) (region_len : ℕ) (vf : VideoFormat) {host : ShmVideoBuffer}
    {opened : VideoShm} (mapped : region_len ≤ size_of_video_header + shm.payload.size)
    (bytes : (j : ℕ) → shm.payload.cell j < 256)
    (prepared : init shm region_len ≡ some (host, opened)) (some_frame : vf.frame_size ≢ 0)
    (enough : video_min_slots ≤ slots (unset region_len) vf)
    (word : slots (unset region_len) vf < u32_mod) where
  abbrev guest : ShmVideoBuffer
  guest = (set_geometry (unset region_len) opened vf).0

  abbrev set : VideoShm
  set = (set_geometry (unset region_len) opened vf).1

  set-Published : Published (unset region_len) opened vf (set_geometry (unset region_len) opened vf)
  set-Published =
      let (a, is_unset, same_payload, geometry) = init_unset shm region_len prepared in
      set_geometry-Published (unset region_len) opened vf (rw same_payload mapped) word some_frame
        enough

  set-Sized : Sized guest set []
  set-Sized =
      let (a, is_unset, same_payload, geometry) = init_unset shm region_len prepared in
      record {
        cut = set-Published.cut;
        holds = Published-HoldsFrames (rw same_payload bytes) set-Published;
        sized = λ f lt. absurd (omega arith);
      }

  -- What the host derives from a region in which buffers have been pushed since.
  seen_geometry :
      (early : List (List ℕ)) {seen : VideoShm}
      → AllBytes early
      → length early < u64_mod
      → push_all guest set early ≡ some seen
      → refresh_geometry host seen ≡ (guest, some vf)
  seen_geometry early {seen} b room e =
      let (a, is_unset, same_payload, geometry) = init_unset shm region_len prepared in
      let (made, p) =
        push_all-PushedAll early set-Sized.cut set-Sized.holds b (omega (arith, room)) in
      let same = some-injective made seen (sym p.returns ∙ e) in
      let len : host.region_len ≡ guest.region_len =
        ap (λ (h : ShmVideoBuffer). h.region_len) is_unset
        ∙ sym (set_geometry_len (unset region_len) opened vf) in
      ap (refresh_geometry host) (sym same)
      ∙ p.geometry host
      ∙ ap₂ (λ (h : ShmVideoBuffer) (f : Option VideoFormat). (h, f))
          (set-Published.same_slots host ∙ ap (λ n. record guest { region_len = n }) len)
          (set-Published.agreed host)

  -- The host's `init` has prepared a sub-region whose payload is mapped and holds bytes, and the
  -- guest has set a geometry with a nonzero frame of which at least three, and fewer than 2^32,
  -- fit. The host's video thread finds the geometry unset for some looks and then published, and
  -- makes its pipe; all the while the guest pushes buffers of bytes, fewer than 2^64, before a
  -- look, before the loop, and between any two of the loop's loads, but not during a read. Then
  -- the thread never faults, and every frame it hands over is the pushed frame with its number,
  -- cut or filled up to the frame's size, in the order in which they were pushed, none twice, and
  -- none that was there before the loop began.
  pub thread_session :
      (fifo_path : String) (pipe_size : ℕ) (w : VideoWorld) (k : ℕ) {seen : VideoShm}
      (later : List VideoShm) (early first srcs : List (List ℕ))
      → w.looks ≡ replicate k opened ++ seen ∷ later
      → make_fifo fifo_path w.mkfifo ≡ ok tt
      → AllBytes early
      → push_all guest set early ≡ some seen
      → AllBytes first
      → push_all guest seen first ≡ some w.at_start
      → Watched guest w.at_start (map (moment_of fifo_path pipe_size) w.rounds) srcs
      → length early + length first + length srcs < u64_mod
      → (hs : List Handed) × (run_video host fifo_path pipe_size w ≡ some (forwarding hs))
        × IsRising (length early + length first) hs
        × ArePushed (frames_of guest (early ++ first ++ srcs)) hs
  thread_session fifo_path pipe_size w k {seen} later early first srcs looks made be pe bf pf
        watched room =
      let (a, is_unset, same_payload, geometry) = init_unset shm region_len prepared in
      let s1 = pushed_to early set-Sized be (omega (arith, room)) pe in
      let s2 = pushed_to first s1 bf (omega (arith, room, length-frames_of guest early)) pf in
      let n : length (frames_of guest early ++ frames_of guest first)
          ≡ length early + length first =
        omega (
          arith,
          length-append (frames_of guest early) (frames_of guest first),
          length-frames_of guest early,
          length-frames_of guest first,
        ) in
      let (hs, e, rising, pushed) = forwards watched s2 (omega (arith, room, n)) in
      (
        hs,
        run_video_at host guest vf fifo_path pipe_size w hs
            (ap (wait_geometry host) looks
              ∙ wait_geometry_lem host guest vf opened seen later k (geometry host)
                  (seen_geometry early be (omega (arith, room)) pe))
            made e,
        subst (λ m. IsRising m hs) n rising,
        subst (λ all. ArePushed all hs)
            (sym (
              frames_of-append guest (early ++ first) srcs
              ∙ ap (λ t. t ++ frames_of guest srcs) (frames_of-append guest early first)))
            pushed,
      )
