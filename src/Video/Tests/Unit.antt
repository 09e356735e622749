-- ===== src/Video/Tests/Unit.antt =====
-- The unit tests of the frame ring (module `video_tests` of packages/shared/src/lib.rs), run on the
-- model.
use lalah.Base.{
  [], ◌∷◌, max, ℕ, is_some, is_ok, unwrap, zero, suc, ◌+◌, ◌*◌, ◌%◌, ◌-◌, ◌≡◌, refl, Bool, true,
  ◌&&◌, not, Option, some, List, ◌==◌, ◌>>=◌, take, drop, tabulate, replicate,
}
use lalah.Base.Layout.{size_of, align_of, end_of, round_up, offsets}
use lalah.Base.Texts.{eq_bytes}
use lalah.Video.Header.{shm_video_header_fields, VideoFormat, align_up_64}
use lalah.Memory.{volatile_copy_to, write_volatile, volatile_copy_from, read_volatile}
use lalah.Memory.Words.{
  volatile_write_frame, write_words, write_rest, write_word, frame_word, from_ne_bytes, to_bytes,
  volatile_copy_from_words, read_words, read_word,
}
use lalah.Video.Ring.{
  VideoShm, ShmVideoBuffer, tear_safe, init, attach, set_geometry, refresh_geometry, push_frame,
  read_frame,
}
use lalah.Video.Tests.{opened}
use Prim.Native.Nat.{bit_xor}

abbrev frame : ℕ
frame = 64

abbrev slots : ℕ
slots = 4

abbrev vlen : ℕ
vlen = 128 + frame * slots

-- A region of zeroes with room for `n` slots.
abbrev region : ℕ → VideoShm
region n = record {
  hdr = record opened.hdr { magic = 0; version = 0; header_size = 0 };
  payload = record { size = frame * n; cell = λ _. 0 };
}

unfoldable fresh : Option (ShmVideoBuffer × VideoShm)
unfolding init
fresh = init (region slots) vlen

-- `u32::from_le_bytes(*b"YUY2")`
unfoldable vfmt : VideoFormat
vfmt = record { width = 8; height = 8; stride = 8; fourcc = 0x3259_5559; frame_size = frame }

-- `==` on formats.
abbrev eq_format : VideoFormat → VideoFormat → Bool
eq_format a b =
    a.width == b.width
    && a.height == b.height
    && a.stride == b.stride
    && a.fourcc == b.fourcc
    && a.frame_size == b.frame_size

-- A frame whose byte `i` is `f i`.
abbrev frame_of : (ℕ → ℕ) → List ℕ
frame_of f = tabulate f 0 frame

-- The frames `f from`, …, pushed one after the other.
unfoldable push_each : ShmVideoBuffer → VideoShm → (ℕ → List ℕ) → (from n : ℕ) → Option VideoShm
push_each buf shm f from zero = some shm
push_each buf shm f from (suc n) =
    push_frame buf shm (f from) >>= λ shm'. push_each buf shm' f (from + 1) n

-- A region with the geometry published.
unfoldable cut : Option (ShmVideoBuffer × VideoShm)
unfolding fresh set_geometry vfmt
cut = fresh >>= λ b.
    let (buf, shm, r) = set_geometry b.0 b.1 vfmt in unwrap r >>= λ n. some (buf, shm)

unfoldable video_header_layout_is_frozen : Bool
unfolding size_of align_of
video_header_layout_is_frozen =
    size_of 64 shm_video_header_fields == 128 && max 64 (align_of shm_video_header_fields) == 64

video_header_layout_is_frozen_passes : video_header_layout_is_frozen ≡ true
unfolding video_header_layout_is_frozen size_of align_of end_of round_up
video_header_layout_is_frozen_passes = refl

-- The frame counter begins the second line of 64 bytes.
video_header_offsets :
    offsets 0 shm_video_header_fields ≡ 0 ∷ 8 ∷ 12 ∷ 16 ∷ 20 ∷ 24 ∷ 28 ∷ 32 ∷ 36 ∷ 40 ∷ 64 ∷ 72 ∷ []
unfolding offsets round_up
video_header_offsets = refl

unfoldable geometry_gate_unset_until_published : Option Bool
unfolding fresh vfmt set_geometry refresh_geometry
geometry_gate_unset_until_published = fresh >>= λ b.
    let (buf, shm, r) = set_geometry b.0 b.1 vfmt in
    unwrap r >>= λ n. (refresh_geometry buf shm).1 >>= λ vf.
    some (not (is_some (refresh_geometry b.0 b.1).1) && n == slots && eq_format vf vfmt)

geometry_gate_unset_until_published_passes : geometry_gate_unset_until_published ≡ some true
unfolding geometry_gate_unset_until_published fresh init vfmt set_geometry align_up_64
    refresh_geometry
geometry_gate_unset_until_published_passes = refl

unfoldable attach_validates_video_magic : Option Bool
unfolding fresh attach
attach_validates_video_magic =
    fresh >>= λ b. some (is_ok (attach b.1 vlen) && not (is_ok (attach (region slots) vlen)))

attach_validates_video_magic_passes : attach_validates_video_magic ≡ some true
unfolding attach_validates_video_magic fresh init attach refresh_geometry
attach_validates_video_magic_passes = refl

unfoldable region_too_small_for_three_slots_is_rejected : Option Bool
unfolding init vfmt set_geometry
region_too_small_for_three_slots_is_rejected =
    init (region 2) (128 + frame * 2) >>= λ b. some (not (is_ok (set_geometry b.0 b.1 vfmt).2))

region_too_small_for_three_slots_is_rejected_passes :
    region_too_small_for_three_slots_is_rejected ≡ some true
unfolding region_too_small_for_three_slots_is_rejected init vfmt set_geometry align_up_64
region_too_small_for_three_slots_is_rejected_passes = refl

unfoldable no_frame_before_push : Option Bool
unfolding cut read_frame
no_frame_before_push =
    cut >>= λ b. read_frame b.0 b.1 (replicate frame 0) >>= λ r. some (not (is_some r.1))

no_frame_before_push_passes : no_frame_before_push ≡ some true
unfolding no_frame_before_push cut vfmt fresh init set_geometry align_up_64 read_frame
no_frame_before_push_passes = refl

-- `i ^ (k * 17)`
abbrev ramp : ℕ → List ℕ
ramp k = frame_of (λ i. bit_xor i (k * 17))

unfoldable push_read_roundtrip_and_newest_wins : Option Bool
unfolding cut push_frame push_each read_frame
push_read_roundtrip_and_newest_wins = cut >>= λ b. push_frame b.0 b.1 (ramp 0) >>= λ shm.
    read_frame b.0 shm (replicate frame 0) >>= λ r. r.1 >>= λ first.
    push_each b.0 shm ramp 1 5 >>= λ shm'. read_frame b.0 shm' r.0 >>= λ r'.
    r'.1 >>= λ n. some (first == 0 && eq_bytes r.0 (ramp 0) && n == 5 && eq_bytes r'.0 (ramp 5))

push_read_roundtrip_and_newest_wins_passes : push_read_roundtrip_and_newest_wins ≡ some true
unfolding push_read_roundtrip_and_newest_wins cut vfmt fresh init set_geometry align_up_64
    push_frame push_each read_frame volatile_write_frame write_words write_rest write_word
    frame_word from_ne_bytes to_bytes volatile_copy_to write_volatile volatile_copy_from_words
    read_words read_word volatile_copy_from read_volatile tear_safe
push_read_roundtrip_and_newest_wins_passes = refl

unfoldable short_source_is_zero_filled : Option Bool
unfolding cut push_frame read_frame
short_source_is_zero_filled = cut >>= λ b. push_frame b.0 b.1 (replicate 10 0xAB) >>= λ shm.
    read_frame b.0 shm (replicate frame 0xFF) >>= λ r. r.1 >>= λ n. some (
      n == 0
      && eq_bytes (take 10 r.0) (replicate 10 0xAB)
      && eq_bytes (drop 10 r.0) (replicate (frame - 10) 0))

short_source_is_zero_filled_passes : short_source_is_zero_filled ≡ some true
unfolding short_source_is_zero_filled cut vfmt fresh init set_geometry align_up_64 push_frame
    push_each read_frame volatile_write_frame write_words write_rest write_word frame_word
    from_ne_bytes to_bytes volatile_copy_to write_volatile volatile_copy_from_words read_words
    read_word volatile_copy_from read_volatile tear_safe
short_source_is_zero_filled_passes = refl

-- `(i as u8).wrapping_add(k)`
abbrev turned : ℕ → List ℕ
turned k = frame_of (λ i. (i + k) % 256)

unfoldable slot_wraps_around_ring : Option Bool
unfolding cut push_each read_frame
slot_wraps_around_ring = cut >>= λ b. push_each b.0 b.1 turned 0 (slots * 3 + 1) >>= λ shm.
    read_frame b.0 shm (replicate frame 0) >>= λ r.
    r.1 >>= λ n. some (n == slots * 3 + 1 - 1 && eq_bytes r.0 (turned (slots * 3)))

slot_wraps_around_ring_passes : slot_wraps_around_ring ≡ some true
unfolding slot_wraps_around_ring cut vfmt fresh init set_geometry align_up_64 push_frame push_each
    read_frame volatile_write_frame write_words write_rest write_word frame_word from_ne_bytes
    to_bytes volatile_copy_to write_volatile volatile_copy_from_words read_words read_word
    volatile_copy_from read_volatile tear_safe
slot_wraps_around_ring_passes = refl
