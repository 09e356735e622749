-- ===== src/Audio/Tests/Unit.antt =====
-- The unit tests of the audio ring (module `tests` of packages/shared/src/lib.rs) and the test of
-- packages/lalah-host/tests/cross_mapping.rs, run on the model.
use lalah.Base.{
  max, ℕ, is_some, is_ok, unwrap, ◌+◌, ◌*◌, ◌%◌, ◌-◌, ◌≡◌, refl, Bool, true, ◌&&◌, not, Option,
  none, some, List, [], ◌∷◌, ◌==◌, ◌>>=◌, take, drop, tabulate, replicate,
}
use lalah.Base.Bits.{is_power_of_two}
use lalah.Base.Layout.{size_of, align_of, end_of, round_up, offsets}
use lalah.Base.Texts.{eq_bytes}
use lalah.Memory.{volatile_copy_to, volatile_copy_from, write_volatile, read_volatile}
use lalah.Audio.Header.{shm_header_fields, AudioFormat, SampleFormat, to_u32, from_u32}
use lalah.Audio.Ring.{
  Shm, ShmAudioBuffer, init, attach, set_format, format, push_overwrite, read_quantum, retry, done,
  read_pass, copy_in, copy_out, mask, plan, unchanged,
}
use lalah.Audio.Tests.{zeroes}

abbrev cap : ℕ
cap = 1024

abbrev total : ℕ
total = 192 + cap

-- A region of zeroes.
abbrev region : Shm
region = record zeroes { payload = record zeroes.payload { size = cap } }

unfoldable fresh : Option (ShmAudioBuffer × Shm)
unfolding init
fresh = init region total cap

unfoldable fmt : AudioFormat
fmt = record { sample_rate = 48_000; channels = 2; format = SampleFormat.s16_le; frame_bytes = 4 }

-- A read into `out_len` bytes: the region after it, the bytes and their number.
unfoldable read : ShmAudioBuffer → Shm → (out_len budget : ℕ) → Option (Shm × List ℕ × ℕ)
unfolding read_quantum
read buf shm out_len budget = read_quantum 1 buf shm out_len budget >>= λ r. elim r [
  | retry ↦ none
  | done shm' out n ↦ some (shm', out, n)
]

-- `(from..to).map(|i| (i & 0xff) as u8).collect()`
abbrev bytes : ℕ → ℕ → List ℕ
bytes from to = tabulate (λ i. i % 256) from (to - from)

unfoldable header_layout_is_frozen : Bool
unfolding size_of align_of
header_layout_is_frozen =
    size_of 64 shm_header_fields == 192 && max 64 (align_of shm_header_fields) == 64

header_layout_is_frozen_passes : header_layout_is_frozen ≡ true
unfolding header_layout_is_frozen size_of align_of end_of round_up
header_layout_is_frozen_passes = refl

-- The producer's words begin the second line of 64 bytes, the consumer's word the third.
header_offsets :
    offsets 0 shm_header_fields
    ≡ 0 ∷ 8 ∷ 12 ∷ 16 ∷ 24 ∷ 28 ∷ 32 ∷ 36 ∷ 40 ∷ 64 ∷ 72 ∷ 80 ∷ 128 ∷ 136 ∷ []
unfolding offsets round_up
header_offsets = refl

unfoldable format_gate_unset_until_published : Option Bool
unfolding fresh fmt set_format format to_u32
format_gate_unset_until_published = fresh >>= λ b. format (set_format b.1 fmt) >>= λ f. some (
    not (is_some (format b.1))
    && f.sample_rate == 48_000
    && f.channels == 2
    && f.frame_bytes == 4
    && to_u32 f.format == to_u32 SampleFormat.s16_le)

format_gate_unset_until_published_passes : format_gate_unset_until_published ≡ some true
unfolding format_gate_unset_until_published fresh init is_power_of_two fmt set_format format to_u32
    from_u32
format_gate_unset_until_published_passes = refl

unfoldable attach_validates_magic_and_capacity : Option Bool
unfolding fresh attach
attach_validates_magic_and_capacity =
    fresh >>= λ b. some (is_ok (attach b.1 total) && not (is_ok (attach region total)))

attach_validates_magic_and_capacity_passes : attach_validates_magic_and_capacity ≡ some true
unfolding attach_validates_magic_and_capacity fresh init is_power_of_two attach
attach_validates_magic_and_capacity_passes = refl

unfoldable push_then_read_roundtrips : Option Bool
unfolding fresh fmt set_format push_overwrite read
push_then_read_roundtrips = fresh >>= λ b.
    push_overwrite b.0 (set_format b.1 fmt) (bytes 0 16) >>= λ shm.
    read b.0 shm 16 1_048_576 >>= λ r. read b.0 r.0 16 1_048_576 >>= λ r2.
    some (r.2 == 16 && eq_bytes r.1 (bytes 0 16) && r2.2 == 0 && eq_bytes r2.1 (replicate 16 0))

push_then_read_roundtrips_passes : push_then_read_roundtrips ≡ some true
unfolding push_then_read_roundtrips fresh init is_power_of_two fmt set_format to_u32 push_overwrite
    copy_in mask volatile_copy_to write_volatile read read_quantum read_pass plan copy_out
    volatile_copy_from read_volatile unchanged
push_then_read_roundtrips_passes = refl

unfoldable read_is_frame_aligned : Option Bool
unfolding fresh fmt set_format push_overwrite read
read_is_frame_aligned = fresh >>= λ b.
    push_overwrite b.0 (set_format b.1 fmt) (bytes 1 11) >>= λ shm.
    read b.0 shm 3 1_048_576 >>= λ r. read b.0 r.0 7 1_048_576 >>= λ r2.
    some (r.2 == 0 && r2.2 == 4 && eq_bytes (take 4 r2.1) (1 ∷ 2 ∷ 3 ∷ 4 ∷ []))

read_is_frame_aligned_passes : read_is_frame_aligned ≡ some true
unfolding read_is_frame_aligned fresh init is_power_of_two fmt set_format to_u32 push_overwrite
    copy_in mask volatile_copy_to write_volatile read read_quantum read_pass plan copy_out
    volatile_copy_from read_volatile unchanged
read_is_frame_aligned_passes = refl

unfoldable wraps_around_ring_boundary : Option Bool
unfolding fresh fmt set_format push_overwrite read
wraps_around_ring_boundary = fresh >>= λ b.
    push_overwrite b.0 (set_format b.1 fmt) (replicate (cap - 8) 0) >>= λ shm.
    read b.0 shm (cap - 8) 16_777_216 >>= λ r. push_overwrite b.0 r.0 (bytes 100 116) >>= λ shm2.
    read b.0 shm2 16 16_777_216 >>= λ r2.
    some (r.2 == cap - 8 && r2.2 == 16 && eq_bytes r2.1 (bytes 100 116))

wraps_around_ring_boundary_passes : wraps_around_ring_boundary ≡ some true
unfolding wraps_around_ring_boundary fresh init is_power_of_two fmt set_format to_u32 push_overwrite
    copy_in mask volatile_copy_to write_volatile read read_quantum read_pass plan copy_out
    volatile_copy_from read_volatile unchanged
wraps_around_ring_boundary_passes = refl

unfoldable bounded_latency_drops_oldest : Option Bool
unfolding fresh fmt set_format push_overwrite read
bounded_latency_drops_oldest = fresh >>= λ b.
    push_overwrite b.0 (set_format b.1 fmt) (bytes 0 256) >>= λ shm. read b.0 shm 64 16 >>= λ r.
    some (r.2 == 16 && eq_bytes (take 16 r.1) (take 16 (drop 240 (bytes 0 256))))

bounded_latency_drops_oldest_passes : bounded_latency_drops_oldest ≡ some true
unfolding bounded_latency_drops_oldest fresh init is_power_of_two fmt set_format to_u32
    push_overwrite copy_in mask volatile_copy_to write_volatile read read_quantum read_pass plan
    copy_out volatile_copy_from read_volatile unchanged
bounded_latency_drops_oldest_passes = refl

unfoldable oversized_push_keeps_newest : Option Bool
unfolding fresh fmt set_format push_overwrite read
oversized_push_keeps_newest = fresh >>= λ b.
    push_overwrite b.0 (set_format b.1 fmt) (bytes 0 (2 * cap)) >>= λ shm.
    read b.0 shm cap (4 * cap) >>= λ r.
    some (r.2 == cap && eq_bytes r.1 (drop cap (bytes 0 (2 * cap))))

oversized_push_keeps_newest_passes : oversized_push_keeps_newest ≡ some true
unfolding oversized_push_keeps_newest fresh init is_power_of_two fmt set_format to_u32
    push_overwrite copy_in mask volatile_copy_to write_volatile read read_quantum read_pass plan
    copy_out volatile_copy_from read_volatile unchanged
oversized_push_keeps_newest_passes = refl

-- The two mappings of one file are one region.
unfoldable two_independent_mappings_share_state : Option Bool
unfolding init attach set_format format to_u32 push_overwrite read
two_independent_mappings_share_state = init wide (192 + 4096) 4096 >>= λ host.
    unwrap (attach host.1 (192 + 4096)) >>= λ guest. format (set_format host.1 packed) >>= λ seen.
    push_overwrite guest (set_format host.1 packed) payload >>= λ shm.
    read host.0 shm 64 1_048_576 >>= λ r. some (
      not (is_some (format host.1))
      && seen.sample_rate == 48_000
      && seen.frame_bytes == 4
      && to_u32 seen.format == to_u32 SampleFormat.s16_le
      && r.2 == 64
      && eq_bytes r.1 payload)
  where
    wide : Shm
    wide = record region { payload = record region.payload { size = 4096 } }

    packed : AudioFormat
    packed = record {
      sample_rate = 48_000;
      channels = 2;
      format = SampleFormat.s16_le;
      frame_bytes = 4;
    }

    payload : List ℕ
    payload = tabulate (λ i. i * 3 % 256) 0 64

two_independent_mappings_share_state_passes : two_independent_mappings_share_state ≡ some true
unfolding two_independent_mappings_share_state init is_power_of_two attach set_format format to_u32
    from_u32 push_overwrite copy_in mask volatile_copy_to write_volatile read read_quantum read_pass
    plan copy_out volatile_copy_from read_volatile unchanged
two_independent_mappings_share_state_passes = refl
