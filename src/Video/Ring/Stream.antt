-- ===== src/Video/Ring/Stream.antt =====
-- The frame ring as a window on the stream of all frames ever pushed.
use lalah.Base.{
  ℕ, zero, suc, ◌+◌, ◌-◌, ◌≤◌, ◌<◌, ◌≡◌, sym, ap, ◌∙◌, List, [], ◌∷◌, arith, length, get_or, take,
  replicate, tabulate, length-tabulate, get_or-append, get_or-tabulate, list_ext, u64_mod,
}
use lalah.Memory.{Memory}
use lalah.Memory.Copy.{overlay}
use lalah.Memory.Bytes.{AreBytes, get_or-replicate}
use lalah.Memory.WriteFrame.{frame_of}
use lalah.Video.Ring.{VideoShm, ShmVideoBuffer, slot_offset}

-- The bytes in the slot of frame `f`.
abbrev pub slot_bytes : ShmVideoBuffer → Memory → ℕ → List ℕ
slot_bytes me m f = tabulate m.cell (slot_offset me f) me.frame_size

-- The newest `slot_count` frames stand in their slots.
abbrev pub KeptFrames : ShmVideoBuffer → Memory → List (List ℕ) → Type 0
KeptFrames me m frames =
    (f : ℕ)
    → f < length frames
    → length frames ≤ f + me.slot_count
    → slot_bytes me m f ≡ get_or frames f []

-- `frame_seq` counts the frames, the ring keeps the newest, and the cells are bytes.
pub record HoldsFrames (me : ShmVideoBuffer) (shm : VideoShm) (frames : List (List ℕ))
    : Type 0 where
  pub count : shm.hdr.frame_seq ≡ length frames
  pub small : length frames < u64_mod
  pub kept : KeptFrames me shm.payload frames
  pub bytes : (j : ℕ) → shm.payload.cell j < 256

pub overlay-bytes :
    (c : ℕ → ℕ) (off : ℕ) (src : List ℕ) (j : ℕ)
    → c j < 256
    → AreBytes src
    → overlay c off src j < 256
overlay-bytes c off src j h b = ground (arith, b (j - off))

take-bytes : (n : ℕ) (src : List ℕ) → AreBytes src → AreBytes (take n src)
take-bytes zero src b i = omega arith
take-bytes (suc n) [] b i = omega arith
take-bytes (suc n) (x ∷ src) b zero = b 0
take-bytes (suc n) (x ∷ src) b (suc i) = take-bytes n src (λ k. b (suc k)) i

pub frame_of-bytes : (src : List ℕ) (n : ℕ) → AreBytes src → AreBytes (frame_of src n)
frame_of-bytes src n b i =
    let pad : List ℕ = replicate (n - length src) 0 in
    ground (
      arith,
      get_or-append 0 (take n src) pad i,
      take-bytes n src b i,
      get_or-replicate (n - length src) (i - length (take n src)),
    )

-- The frame just written is in its slot.
pub slot_written :
    (me : ShmVideoBuffer) (m : Memory) (f : ℕ) (frame : List ℕ)
    → length frame ≡ me.frame_size
    → tabulate (overlay m.cell (slot_offset me f) frame) (slot_offset me f) me.frame_size ≡ frame
slot_written me m f frame e =
    list_ext 0 (tabulate g off me.frame_size) frame (length-tabulate g off me.frame_size ∙ sym e)
      (λ i lt. element i (omega (arith, length-tabulate g off me.frame_size)))
  where
    off : ℕ
    off = slot_offset me f

    g : ℕ → ℕ
    g = overlay m.cell off frame

    element :
        (i : ℕ) → i < me.frame_size → get_or (tabulate g off me.frame_size) i 0 ≡ get_or frame i 0
    element i lt =
        let back : off + i - off ≡ i = omega arith in
        get_or-tabulate 0 g off me.frame_size i lt ∙ ground (arith, ap (λ k. get_or frame k 0) back)
