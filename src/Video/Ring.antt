-- ===== src/Video/Ring.antt =====
-- `ShmVideoBuffer` of packages/shared/src/lib.rs. Both processes map one region, `VideoShm`; each has
-- a handle with its own cache of the geometry. `none` is a panic or an access outside the mapping.
pub mod Geometry
pub mod Slots
pub mod Stream
pub mod Push
pub mod Read
use Prim.Native.String.{String}
use lalah.Base.{
  ℕ, ◌+◌, ◌-◌, ◌*◌, ◌/◌, ◌%◌, min, Bool, not, ◌||◌, Option, none, some, List, ◌++◌, ltb, leb, ◌==◌,
  if◌then◌else◌, ◌>>=◌, Result, ok, err, length, drop, wrapping_add, wrapping_sub, as_u32,
}
use lalah.Memory.{Memory}
use lalah.Memory.Words.{volatile_write_frame, volatile_copy_from_words}
use lalah.Video.Header.{
  VideoFormat, ShmVideoHeader, video_magic, video_version, video_min_slots, size_of_video_header,
  align_up_64,
}

-- The sub-region: its header, and the frame slots behind it.
pub record VideoShm : Type 0 where
  pub hdr : ShmVideoHeader
  pub payload : Memory

pub record ShmVideoBuffer : Type 0 where
  pub region_len : ℕ
  pub frame_size : ℕ
  pub slot_stride : ℕ
  pub slot_count : ℕ

-- A handle with no geometry yet.
abbrev pub unset : ℕ → ShmVideoBuffer
unset region_len = record {
  region_len = region_len;
  frame_size = 0;
  slot_stride = 0;
  slot_count = 0;
}

unfoldable pub init : VideoShm → ℕ → Option (ShmVideoBuffer × VideoShm)
init shm region_len =
    if not (ltb size_of_video_header region_len)
    then none
    else some (unset region_len, record shm { hdr = hdr })
  where
    hdr : ShmVideoHeader
    hdr = record {
      magic = video_magic;
      version = video_version;
      header_size = as_u32 size_of_video_header;
      width = 0;
      height = 0;
      stride = 0;
      fourcc = 0;
      frame_size = 0;
      slot_count = 0;
      frame_seq = 0;
    }

-- The handle after the call, and the geometry if it is published.
unfoldable pub refresh_geometry : ShmVideoBuffer → VideoShm → ShmVideoBuffer × Option VideoFormat
refresh_geometry me shm = if h.frame_size == 0 then (me, none) else (
  record me {
    frame_size = h.frame_size;
    slot_stride = align_up_64 h.frame_size;
    slot_count = h.slot_count;
  },
  some (record {
    width = h.width;
    height = h.height;
    stride = h.stride;
    fourcc = h.fourcc;
    frame_size = h.frame_size;
  }),
)
  where
    h : ShmVideoHeader
    h = shm.hdr

unfoldable pub attach : VideoShm → ℕ → Result ShmVideoBuffer String
unfolding refresh_geometry
attach shm region_len =
    if leb region_len size_of_video_header
    then err "video region smaller than header"
    else if not (h.magic == video_magic)
    then err "bad video magic (region not initialized yet)"
    else if not (h.version == video_version)
    then err "video version mismatch"
    else if not (h.header_size == size_of_video_header)
    then err "video ABI/header_size mismatch"
    else ok (refresh_geometry (unset region_len) shm).0
  where
    h : ShmVideoHeader
    h = shm.hdr

-- The handle, the region and what the call returns.
unfoldable pub set_geometry :
    ShmVideoBuffer → VideoShm → VideoFormat → ShmVideoBuffer × VideoShm × Result ℕ String
set_geometry me shm vf =
    if vf.frame_size == 0
    then (me, shm, err "zero frame_size")
    else if ltb (as_u32 fitting) video_min_slots
    then (me, shm, err "video region too small for >= 3 frame slots")
    else (
      record me {
        frame_size = vf.frame_size;
        slot_stride = slot_stride;
        slot_count = as_u32 fitting;
      },
      record shm {
        hdr = record shm.hdr {
          width = vf.width;
          height = vf.height;
          stride = vf.stride;
          fourcc = vf.fourcc;
          slot_count = as_u32 fitting;
          frame_seq = 0;
          frame_size = vf.frame_size;
        };
      },
      ok (as_u32 fitting),
    )
  where
    slot_stride : ℕ
    slot_stride = align_up_64 vf.frame_size

    usable : ℕ
    usable = me.region_len - size_of_video_header

    fitting : ℕ
    fitting = usable / slot_stride

unfoldable pub frame_count : VideoShm → ℕ
frame_count shm = shm.hdr.frame_seq

-- The payload offset of the slot of frame `f`.
abbrev pub slot_offset : ShmVideoBuffer → ℕ → ℕ
slot_offset me f = f % me.slot_count * me.slot_stride

unfoldable pub push_frame : ShmVideoBuffer → VideoShm → List ℕ → Option VideoShm
push_frame me shm src =
    if me.frame_size == 0 || me.slot_count == 0
    then some shm
    else volatile_write_frame shm.payload (slot_offset me seq) src me.frame_size >>= λ p.
        some (record { hdr = record shm.hdr { frame_seq = wrapping_add seq 1 }; payload = p })
  where
    seq : ℕ
    seq = shm.hdr.frame_seq

-- The recheck after the copy, with the frame counts loaded before and after it.
unfoldable pub tear_safe : ShmVideoBuffer → (s0 s1 : ℕ) → Bool
tear_safe me s0 s1 = leb (wrapping_sub s1 s0) (me.slot_count - 2)

-- The caller's buffer after the call, and the number of the frame. No frame is pushed meanwhile.
unfoldable pub read_frame : ShmVideoBuffer → VideoShm → List ℕ → Option (List ℕ × Option ℕ)
unfolding tear_safe
read_frame me shm out =
    if me.frame_size == 0 || me.slot_count == 0
    then some (out, none)
    else if s0 == 0
    then some (out, none)
    else volatile_copy_from_words shm.payload (slot_offset me (s0 - 1)) len >>= λ bytes.
        some (bytes ++ drop len out, if tear_safe me s0 s0 then some (s0 - 1) else none)
  where
    s0 : ℕ
    s0 = shm.hdr.frame_seq

    len : ℕ
    len = min me.frame_size (length out)

-- The getter of the cached size.
unfoldable pub frame_size : ShmVideoBuffer → ℕ
frame_size me = me.frame_size
