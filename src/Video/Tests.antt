-- ===== src/Video/Tests.antt =====
-- Runs of the frame ring on a small region, and the theorems at concrete inputs.
mod Race
mod Gates
mod Frames
mod Progress
mod Thread
mod Unit
use Prim.Native.String.{String}
use lalah.Base.{
  ℕ, zero, suc, ◌+◌, ◌<◌, ◌≤◌, ◌≡◌, ◌↔◌, inr, refl, List, [], ◌∷◌, none, some, arith, get_or, ok,
  err,
}
use lalah.Memory.{Memory, update, write_volatile, read_volatile}
use lalah.Memory.Bytes.{AreBytes}
use lalah.Video.Header.{
  VideoFormat, ShmVideoHeader, video_region, audio_region_bytes, size_of_video_header, video_magic,
  align_up_64,
}
use lalah.Video.Ring.{
  VideoShm, ShmVideoBuffer, unset, init, attach, set_geometry, refresh_geometry, read_frame,
  slot_offset, tear_safe,
}
use lalah.Video.Ring.Geometry.{
  IsCut, Published, IsAttachable, set_geometry-Published, set_geometry_refuses, attach_video_iff,
  init_unset, video_region_lem,
}
use lalah.Video.Ring.Stream.{HoldsFrames, KeptFrames}
use lalah.Video.Ring.Push.{PushedFrame, push_frame-PushedFrame}
use lalah.Video.Ring.Read.{read_frame_newest}

-- An initialised region with room for three slots of 64 bytes.
abbrev opened_header : ShmVideoHeader
opened_header = record {
  magic = video_magic;
  version = 1;
  header_size = 128;
  width = 0;
  height = 0;
  stride = 0;
  fourcc = 0;
  frame_size = 0;
  slot_count = 0;
  frame_seq = 0;
}

abbrev pub opened : VideoShm
opened = record { hdr = opened_header; payload = record { size = 200; cell = λ _. 0 } }

abbrev pub tiny : VideoFormat
tiny = record { width = 3; height = 1; stride = 3; fourcc = 0; frame_size = 3 }

-- The handle after `tiny` is published, and the region.
abbrev pub cut_handle : ShmVideoBuffer
cut_handle = record { region_len = 328; frame_size = 3; slot_stride = 64; slot_count = 3 }

abbrev pub cut_region : VideoShm
cut_region = record opened {
  hdr = record opened_header { width = 3; height = 1; stride = 3; frame_size = 3; slot_count = 3 };
}

pub init_runs : init opened 328 ≡ some (unset 328, opened)
unfolding init
init_runs = refl

init_too_small : init opened 128 ≡ none
unfolding init
init_too_small = refl

attach_too_small : attach opened 128 ≡ err "video region smaller than header"
unfolding attach
attach_too_small = refl

pub cut_handle-IsCut : IsCut cut_handle cut_region
cut_handle-IsCut = record {
  some_frame = omega arith;
  enough = omega arith;
  aligned = refl;
  holds_frame = omega arith;
  fits = omega arith;
  narrow = omega arith;
}

pub cut_handle-HoldsFrames : HoldsFrames cut_handle cut_region []
cut_handle-HoldsFrames = record {
  count = refl;
  small = omega arith;
  kept = λ f lt near. absurd (omega arith);
  bytes = λ j. omega arith;
}

abbrev pub pixels : List ℕ
pixels = 7 ∷ 8 ∷ 9 ∷ []

pub pixels-AreBytes : AreBytes pixels
pixels-AreBytes zero = omega arith
pixels-AreBytes (suc zero) = omega arith
pixels-AreBytes (suc (suc zero)) = omega arith
pixels-AreBytes (suc (suc (suc i))) = omega arith

-- The region with one frame of bytes 7, 8 and 9.
abbrev filled : VideoShm
filled = record {
  hdr = record cut_region.hdr { frame_seq = 1 };
  payload = record { size = 200; cell = λ i. get_or pixels i 0 };
}

filled-HoldsFrames : HoldsFrames cut_handle filled (pixels ∷ [])
filled-HoldsFrames = record {
  count = refl;
  small = omega arith;
  kept = filled-KeptFrames;
  bytes = pixels-AreBytes;
}
  where
    filled-KeptFrames : KeptFrames cut_handle filled.payload (pixels ∷ [])
    filled-KeptFrames zero lt near = refl
    filled-KeptFrames (suc f) lt near = absurd (omega arith)

attach_video_iff_example :
    (attach cut_region 328 ≡ ok cut_handle)
    ↔ (IsAttachable cut_region 328 × (cut_handle ≡ (refresh_geometry (unset 328) cut_region).0))
attach_video_iff_example = attach_video_iff cut_region 328 cut_handle

init_unset_example :
    IsAttachable opened 328
    × (unset 328 ≡ unset 328)
    × (opened.payload ≡ opened.payload)
    × ((other : ShmVideoBuffer) → refresh_geometry other opened ≡ (other, none))
init_unset_example = init_unset opened 328 init_runs

video_region_lem_example :
    ((video_region 100 ≡ none) ↔ (100 ≤ audio_region_bytes + size_of_video_header))
    × ((base len : ℕ)
        → video_region 100 ≡ some (base, len)
        → (base ≡ audio_region_bytes) × (base + len ≡ 100) × (size_of_video_header < len))
video_region_lem_example = video_region_lem 100

push_frame-PushedFrame_example :
    (shm' : VideoShm) × PushedFrame cut_handle cut_region [] pixels shm'
push_frame-PushedFrame_example =
    push_frame-PushedFrame cut_handle-IsCut cut_handle-HoldsFrames pixels pixels-AreBytes
      (omega arith)

read_frame_newest_example :
    read_frame cut_handle filled (0 ∷ 0 ∷ 0 ∷ 0 ∷ []) ≡ some (7 ∷ 8 ∷ 9 ∷ 0 ∷ [], some 0)
read_frame_newest_example =
    read_frame_newest {frames = pixels ∷ []}
      (record {
        some_frame = omega arith;
        enough = omega arith;
        aligned = refl;
        holds_frame = omega arith;
        fits = omega arith;
        narrow = omega arith;
      })
      filled-HoldsFrames (0 ∷ 0 ∷ 0 ∷ 0 ∷ [])
