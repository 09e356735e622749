-- ===== src/Session/Watched.antt =====
-- The host's forwarding loop (packages/lalah-host/src/video.rs) over a region in which the guest pushes
-- (packages/shared/src/lib.rs): which frames are handed over.
use lalah.Base.{
  ℕ, zero, suc, ◌+◌, ◌-◌, ◌<◌, ◌≡◌, sym, subst, ap, ◌∙◌, some, List, [], ◌∷◌, ◌++◌, arith, length,
  get_or, length-append, get_or-append, u64_mod,
}
use mathlib.Core.Option.{some-injective}
use lalah.Memory.WriteFrame.{length-frame_of}
use lalah.Video.Ring.{VideoShm, ShmVideoBuffer}
use lalah.Video.Ring.Geometry.{IsCut}
use lalah.Video.Ring.Stream.{HoldsFrames}
use lalah.Host.Forward.{Moment, Handed}
use lalah.Session.Frames.{push_all, AllBytes, frames_of, push_all-PushedAll}

-- The loop's moments, with what the guest has pushed by each of them, and all of that in order.
pub data Watched (me : ShmVideoBuffer) : VideoShm → List Moment → List (List ℕ) → Type 0 where
  nothing : {shm : VideoShm} → Watched me shm [] []
  watch :
      {shm : VideoShm} {m : Moment} {ms : List Moment} {later : List (List ℕ)}
      (first second third : List (List ℕ))
      → AllBytes first
      → AllBytes second
      → AllBytes third
      → push_all me shm first ≡ some m.at_poll
      → push_all me m.at_poll second ≡ some m.at_read
      → push_all me m.at_read third ≡ some m.after_read
      → Watched me m.after_read ms later
      → Watched me shm (m ∷ ms) (first ++ second ++ third ++ later)

-- A ring that holds frames of the handle's size.
pub record Sized (me : ShmVideoBuffer) (shm : VideoShm) (frames : List (List ℕ)) : Type 0 where
  pub cut : IsCut me shm
  pub holds : HoldsFrames me shm frames
  pub sized : (f : ℕ) → f < length frames → length (get_or frames f []) ≡ me.frame_size

-- The frame with its number is among the frames pushed.
abbrev pub IsPushed : List (List ℕ) → Handed → Type 0
IsPushed frames h = (h.number < length frames) × (h.frame ≡ get_or frames h.number [])

abbrev pub ArePushed : List (List ℕ) → List Handed → Type 0
ArePushed frames [] = Unit {0}
ArePushed frames (h ∷ hs) = IsPushed frames h × ArePushed frames hs

IsPushed-append :
    (frames new : List (List ℕ)) (h : Handed) → IsPushed frames h → IsPushed (frames ++ new) h
IsPushed-append frames new h (lt, e) = (
  omega (arith, length-append frames new),
  e ∙ sym (get_or-append [] frames new h.number ∙ ground arith),
)

pub ArePushed-append :
    (frames new : List (List ℕ)) (hs : List Handed)
    → ArePushed frames hs
    → ArePushed (frames ++ new) hs
ArePushed-append frames new [] p = tt
ArePushed-append frames new (h ∷ hs) (p, ps) =
    (IsPushed-append frames new h p, ArePushed-append frames new hs ps)

pub ArePushed-both :
    (frames : List (List ℕ)) (hs ks : List Handed)
    → ArePushed frames hs
    → ArePushed frames ks
    → ArePushed frames (hs ++ ks)
ArePushed-both frames [] ks p q = q
ArePushed-both frames (h ∷ hs) ks (p, ps) q = (p, ArePushed-both frames hs ks ps q)

sized_of :
    (me : ShmVideoBuffer) (srcs : List (List ℕ)) (f : ℕ)
    → f < length (frames_of me srcs)
    → length (get_or (frames_of me srcs) f []) ≡ me.frame_size
sized_of me [] f lt = absurd (omega arith)
sized_of me (src ∷ srcs) zero lt = length-frame_of src me.frame_size
sized_of me (src ∷ srcs) (suc f) lt = sized_of me srcs f (omega arith)

sized_append :
    (me : ShmVideoBuffer) (frames srcs : List (List ℕ))
    → ((f : ℕ) → f < length frames → length (get_or frames f []) ≡ me.frame_size)
    → (f : ℕ) → f < length (frames ++ frames_of me srcs)
    → length (get_or (frames ++ frames_of me srcs) f []) ≡ me.frame_size
sized_append me frames srcs old f lt =
    ap length (get_or-append [] frames (frames_of me srcs) f)
    ∙ ground (
      arith,
      length-append frames (frames_of me srcs),
      old f,
      sized_of me srcs (f - length frames),
    )

-- Buffers that are pushed append their frames.
pub pushed_to :
    {me : ShmVideoBuffer} {shm shm' : VideoShm} {frames : List (List ℕ)} (srcs : List (List ℕ))
    → Sized me shm frames
    → AllBytes srcs
    → length frames + length srcs < u64_mod
    → push_all me shm srcs ≡ some shm'
    → Sized me shm' (frames ++ frames_of me srcs)
pushed_to {me} {frames} srcs s b room e =
    let (made, p) = push_all-PushedAll srcs s.cut s.holds b room in
    let same = some-injective made _ (sym p.returns ∙ e) in
    record {
      cut = subst (IsCut me) same p.cut;
      holds = subst (λ x. HoldsFrames me x (frames ++ frames_of me srcs)) same p.holds;
      sized = sized_append me frames srcs s.sized;
    }
