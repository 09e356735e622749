-- ===== src/Video/Publish.antt =====
-- The stores of `ShmVideoBuffer::init` and `set_geometry` and the loads of `attach` and
-- `refresh_geometry` (packages/shared/src/lib.rs), one by one, so that the loads of one process can
-- fall between the stores of the other. Stores take effect in program order, and so do loads.
pub mod Gates
use Prim.Native.String.{String}
use lalah.Base.{
  ℕ, ◌+◌, not, Option, none, some, List, [], ◌∷◌, leb, ◌==◌, if◌then◌else◌, Result, ok, err, as_u32,
}
use lalah.Video.Header.{
  VideoFormat, ShmVideoHeader, video_magic, video_version, size_of_video_header, align_up_64,
}
use lalah.Video.Ring.{ShmVideoBuffer, unset}

abbrev pub init_video_stores : List (ShmVideoHeader → ShmVideoHeader)
init_video_stores =
    (λ (h : ShmVideoHeader). record h { header_size = as_u32 size_of_video_header })
    ∷ (λ (h : ShmVideoHeader). record h { width = 0 })
    ∷ (λ (h : ShmVideoHeader). record h { height = 0 })
    ∷ (λ (h : ShmVideoHeader). record h { stride = 0 })
    ∷ (λ (h : ShmVideoHeader). record h { fourcc = 0 })
    ∷ (λ (h : ShmVideoHeader). record h { slot_count = 0 })
    ∷ (λ (h : ShmVideoHeader). record h { frame_seq = 0 })
    ∷ (λ (h : ShmVideoHeader). record h { frame_size = 0 })
    ∷ (λ (h : ShmVideoHeader). record h { version = video_version })
    ∷ (λ (h : ShmVideoHeader). record h { magic = video_magic })
    ∷ []

abbrev pub geometry_stores : VideoFormat → (slot_count : ℕ) → List (ShmVideoHeader → ShmVideoHeader)
geometry_stores vf slot_count =
    (λ (h : ShmVideoHeader). record h { width = vf.width })
    ∷ (λ (h : ShmVideoHeader). record h { height = vf.height })
    ∷ (λ (h : ShmVideoHeader). record h { stride = vf.stride })
    ∷ (λ (h : ShmVideoHeader). record h { fourcc = vf.fourcc })
    ∷ (λ (h : ShmVideoHeader). record h { slot_count = slot_count })
    ∷ (λ (h : ShmVideoHeader). record h { frame_seq = 0 })
    ∷ (λ (h : ShmVideoHeader). record h { frame_size = vf.frame_size })
    ∷ []

-- `refresh_geometry`, with the header `seen i` as it is at load `i`.
unfoldable pub refresh_loads :
    ShmVideoBuffer → (seen : ℕ → ShmVideoHeader) → ShmVideoBuffer × Option VideoFormat
refresh_loads me seen = if fs == 0 then (me, none) else (
  record me { frame_size = fs; slot_stride = align_up_64 fs; slot_count = (seen 1).slot_count },
  some (record {
    width = (seen 2).width;
    height = (seen 3).height;
    stride = (seen 4).stride;
    fourcc = (seen 5).fourcc;
    frame_size = fs;
  }),
)
  where
    fs : ℕ
    fs = (seen 0).frame_size

-- `attach`, the same way: its own loads come before those of `refresh_geometry`.
unfoldable pub attach_video_loads :
    (region_len : ℕ) (seen : ℕ → ShmVideoHeader) → Result ShmVideoBuffer String
unfolding refresh_loads
attach_video_loads region_len seen =
    if leb region_len size_of_video_header
    then err "video region smaller than header"
    else if not ((seen 0).magic == video_magic)
    then err "bad video magic (region not initialized yet)"
    else if not ((seen 1).version == video_version)
    then err "video version mismatch"
    else if not ((seen 2).header_size == size_of_video_header)
    then err "video ABI/header_size mismatch"
    else ok (refresh_loads (unset region_len) (λ i. seen (3 + i))).0
