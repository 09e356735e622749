-- ===== src/Session/Frames.antt =====
-- The frame ring from end to end (packages/shared/src/lib.rs): the host prepares the sub-region, the guest
-- attaches, publishes a geometry and pushes frames, and the host reads.
use Prim.Native.String.{String}
use lalah.Base.{
  Result, ℕ, suc, ◌+◌, ◌-◌, ◌≤◌, ◌<◌, ◌≡◌, ◌≢◌, refl, sym, subst, ap, ◌∙◌, Option, none, some, List,
  [], ◌∷◌, ◌++◌, map, arith, ◌>>=◌, ◌==◌, if◌then◌else◌, length, get_or, take, drop, length-append,
  ok, u64_mod, u32_mod,
}
use mathlib.Core.List.{append-nil, append_assoc}
use lalah.Memory.Bytes.{AreBytes}
use lalah.Memory.WriteFrame.{frame_of}
use lalah.Video.Header.{VideoFormat, ShmVideoHeader, video_min_slots, size_of_video_header}
use lalah.Video.Ring.{
  VideoShm, ShmVideoBuffer, unset, init, attach, set_geometry, refresh_geometry, push_frame,
  read_frame,
}
use lalah.Video.Ring.Geometry.{
  IsCut, Published, slots, set_geometry-Published, attach_video_iff, init_unset,
}
use lalah.Video.Ring.Stream.{HoldsFrames}
use lalah.Video.Ring.Push.{push_frame-PushedFrame}
use lalah.Video.Ring.Read.{read_frame_newest}

-- The buffers that the grabber hands over, one after the other.
abbrev pub push_all : ShmVideoBuffer → VideoShm → List (List ℕ) → Option VideoShm
push_all me shm [] = some shm
push_all me shm (src ∷ srcs) = push_frame me shm src >>= λ shm'. push_all me shm' srcs

abbrev pub AllBytes : List (List ℕ) → Type 0
AllBytes [] = Unit {0}
AllBytes (src ∷ srcs) = AreBytes src × AllBytes srcs

abbrev pub frames_of : ShmVideoBuffer → List (List ℕ) → List (List ℕ)
frames_of me srcs = map (λ src. frame_of src me.frame_size) srcs

pub length-frames_of :
    (me : ShmVideoBuffer) (srcs : List (List ℕ)) → length (frames_of me srcs) ≡ length srcs
length-frames_of me [] = refl
length-frames_of me (src ∷ srcs) = ap suc (length-frames_of me srcs)

-- A push changes nothing that the geometry is read from.
same_geometry :
    (other : ShmVideoBuffer) (shm shm' : VideoShm) (n : ℕ)
    → shm'.hdr ≡ record shm.hdr { frame_seq = n }
    → refresh_geometry other shm' ≡ refresh_geometry other shm
unfolding refresh_geometry
same_geometry other shm shm' n e =
    ap (λ (h : ShmVideoHeader). refresh_geometry other (record shm { hdr = h })) e

-- What pushing all of them leaves.
pub record PushedAll (me : ShmVideoBuffer) (shm : VideoShm) (frames : List (List ℕ))
    (srcs : List (List ℕ)) (shm' : VideoShm) : Type 0 where
  pub returns : push_all me shm srcs ≡ some shm'
  pub holds : HoldsFrames me shm' (frames ++ frames_of me srcs)
  pub cut : IsCut me shm'
  pub geometry : (other : ShmVideoBuffer) → refresh_geometry other shm' ≡ refresh_geometry other shm

pub push_all-PushedAll :
    {me : ShmVideoBuffer} (srcs : List (List ℕ)) {shm : VideoShm} {frames : List (List ℕ)}
    → IsCut me shm
    → HoldsFrames me shm frames
    → AllBytes srcs
    → length frames + length srcs < u64_mod
    → (shm' : VideoShm) × PushedAll me shm frames srcs shm'
push_all-PushedAll [] {shm} c h b room =
    (shm, record { returns = refl; holds = rw append-nil h; cut = c; geometry = λ other. refl })
push_all-PushedAll {me} (src ∷ srcs) {shm} {frames} c h (b, bs) room =
    let (mid, p) = push_frame-PushedFrame c h src b (omega (arith, room)) in
    let frame : List ℕ = frame_of src me.frame_size in
    let (shm', q) =
      push_all-PushedAll srcs p.cut p.holds bs
        (omega (arith, room, length-append frames (frame ∷ []))) in
    (
      shm',
      record {
        returns = rw p.returns q.returns;
        holds =
            subst (HoldsFrames me shm') (append_assoc frames (frame ∷ []) (frames_of me srcs))
              q.holds;
        cut = q.cut;
        geometry = λ other.
            q.geometry other ∙ same_geometry other shm mid (shm.hdr.frame_seq + 1) p.header;
      },
    )

-- The slots of a handle do not depend on the length it was told.
IsCut-relength :
    {me : ShmVideoBuffer} {shm : VideoShm} (n : ℕ)
    → IsCut me shm
    → IsCut (record me { region_len = n }) shm
IsCut-relength n c = record {
  some_frame = c.some_frame;
  enough = c.enough;
  aligned = c.aligned;
  holds_frame = c.holds_frame;
  fits = c.fits;
  narrow = c.narrow;
}

HoldsFrames-relength :
    {me : ShmVideoBuffer} {shm : VideoShm} {frames : List (List ℕ)} (n : ℕ)
    → HoldsFrames me shm frames
    → HoldsFrames (record me { region_len = n }) shm frames
HoldsFrames-relength n h = record {
  count = h.count;
  small = h.small;
  kept = h.kept;
  bytes = h.bytes;
}

-- A geometry just published: no frame has been pushed.
pub Published-HoldsFrames :
    {me : ShmVideoBuffer} {shm : VideoShm} {vf : VideoFormat}
    {r : ShmVideoBuffer × VideoShm × Result ℕ String}
    → ((j : ℕ) → shm.payload.cell j < 256)
    → Published me shm vf r
    → HoldsFrames r.0 r.1 []
Published-HoldsFrames bytes p = record {
  count = p.fresh;
  small = omega arith;
  kept = λ f lt near. absurd (omega arith);
  bytes = rw p.same_payload bytes;
}

-- What a reader with the host's handle gets.
module _ {me : ShmVideoBuffer} {shm shm' : VideoShm} {srcs : List (List ℕ)} (host : ShmVideoBuffer)
    (p : PushedAll me shm [] srcs shm')
    (same : (refresh_geometry host shm).0 ≡ record me { region_len = host.region_len }) where
  last_read :
      (out : List ℕ)
      → read_frame (refresh_geometry host shm').0 shm' out ≡ (
          if length (frames_of me srcs) == 0
          then some (out, none)
          else some (
            take (length out) (get_or (frames_of me srcs) (length (frames_of me srcs) - 1) [])
                ++ drop me.frame_size out,
            some (length (frames_of me srcs) - 1),
          ))
  last_read out =
      ap (λ (h : ShmVideoBuffer). read_frame h shm' out)
        (ap (λ (q : ShmVideoBuffer × Option VideoFormat). q.0) (p.geometry host) ∙ same)
      ∙ read_frame_newest (IsCut-relength host.region_len p.cut)
          (HoldsFrames-relength host.region_len p.holds) out

module _ (shm : VideoShm) (region_len : ℕ) (vf : VideoFormat) {host : ShmVideoBuffer}
    {opened : VideoShm} (mapped : region_len ≤ size_of_video_header + shm.payload.size)
    (bytes : (j : ℕ) → shm.payload.cell j < 256)
    (prepared : init shm region_len ≡ some (host, opened)) (some_frame : vf.frame_size ≢ 0)
    (enough : video_min_slots ≤ slots (unset region_len) vf)
    (word : slots (unset region_len) vf < u32_mod) where
  -- The host's `init` has prepared a sub-region whose payload is mapped and holds bytes; the
  -- guest sets a geometry with a nonzero frame of which at least three, and fewer than 2^32, fit,
  -- and pushes fewer than 2^64 buffers of bytes. Then `attach` gives the guest the unset handle,
  -- no push faults, the host's `refresh_geometry` gives the geometry that was set, and its read,
  -- while no frame is pushed, accepts the frame of the last buffer, cut or filled up to the
  -- frame's size, with its number, and puts as much of it as there is room for at the start of
  -- the caller's buffer; before the first frame it accepts nothing.
  pub frames_session :
      (srcs : List (List ℕ))
      → AllBytes srcs
      → length srcs < u64_mod
      → (out : List ℕ)
      → (attach opened region_len ≡ ok (unset region_len))
        × ((shm' : VideoShm) × (push_all
                (set_geometry (unset region_len) opened vf).0
                (set_geometry (unset region_len) opened vf).1
                srcs
              ≡ some shm')
            × ((refresh_geometry host shm').1 ≡ some vf)
            × (read_frame (refresh_geometry host shm').0 shm' out ≡ (
                if length srcs == 0
                then some (out, none)
                else some (
                  take (length out) (
                        get_or
                          (frames_of (set_geometry (unset region_len) opened vf).0 srcs)
                          (length srcs - 1)
                          [])
                      ++ drop (set_geometry (unset region_len) opened vf).0.frame_size out,
                  some (length srcs - 1),
                ))))
  frames_session srcs b room out =
      let (a, is_unset, same_payload, geometry) = init_unset shm region_len prepared in
      let published : Published (unset region_len) opened vf
          (set_geometry (unset region_len) opened vf) =
        set_geometry-Published (unset region_len) opened vf (rw same_payload mapped) word some_frame
          enough in
      let (shm', p) =
        push_all-PushedAll srcs published.cut
          (Published-HoldsFrames (rw same_payload bytes) published) b (omega (arith, room)) in
      (
        (attach_video_iff opened region_len (unset region_len)).1 (
          a,
          sym (ap (λ (q : ShmVideoBuffer × Option VideoFormat). q.0) (geometry (unset region_len))),
        ),
        (
          shm',
          p.returns,
          ap (λ (q : ShmVideoBuffer × Option VideoFormat). q.1) (p.geometry host)
              ∙ published.agreed host,
          subst
              (λ n. read_frame (refresh_geometry host shm').0 shm' out ≡ (
                if n == 0
                then some (out, none)
                else some (
                  take (length out) (
                        get_or (frames_of (set_geometry (unset region_len) opened vf).0 srcs)
                          (n - 1) [])
                      ++ drop (set_geometry (unset region_len) opened vf).0.frame_size out,
                  some (n - 1),
                )))
              (length-frames_of (set_geometry (unset region_len) opened vf).0 srcs)
              (last_read host p (published.same_slots host) out),
        ),
      )
