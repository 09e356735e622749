-- ===== src/Video/Ring/Geometry.antt =====
-- The geometry: what the producer publishes, and what both sides derive from it.
use Prim.Native.String.{String}
use lalah.Base.{
  ℕ, ◌+◌, ◌-◌, ◌*◌, ◌/◌, ◌%◌, ◌≤◌, ◌<◌, ◌≡◌, ◌≢◌, ◌↔◌, ◌⊎◌, inl, inr, refl, true, false, none, some,
  arith, ltb, ◌==◌, Option-cases, Result, ok, err, as_u32, u32_mod, ne→==, eq→==, le→ltb, lt→ltb,
}
use native.Mathlib.Nat.{div-mul-le_self, mod-eq_of_lt}
use native.Mathlib.Decide.{ℕ_discrete}
use lalah.Video.Header.{
  VideoFormat, video_magic, video_version, video_min_slots, size_of_video_header, align_up_64,
  audio_region_bytes, video_region,
}
use lalah.Video.Ring.{VideoShm, ShmVideoBuffer, unset, init, attach, refresh_geometry, set_geometry}

-- The slot stride is the least multiple of 64 that holds a frame.
pub align_up_64_lem :
    (n : ℕ) → (align_up_64 n % 64 ≡ 0) × (n ≤ align_up_64 n) × (align_up_64 n < n + 64)
unfolding align_up_64
align_up_64_lem n = omega arith

-- A handle whose slots are cut out of the payload: enough of them, aligned, each with room for a
-- frame, and all inside the mapping.
pub record IsCut (me : ShmVideoBuffer) (shm : VideoShm) : Type 0 where
  pub some_frame : 0 < me.frame_size
  pub enough : video_min_slots ≤ me.slot_count
  pub aligned : me.slot_stride % 64 ≡ 0
  pub holds_frame : me.frame_size ≤ me.slot_stride
  pub fits : me.slot_count * me.slot_stride ≤ shm.payload.size
  pub narrow : me.slot_count < u32_mod

-- What `set_geometry` does when it succeeds.
pub record Published (me : ShmVideoBuffer) (shm : VideoShm) (vf : VideoFormat)
    (r : ShmVideoBuffer × VideoShm × Result ℕ String) : Type 0 where
  pub returns : r.2 ≡ ok r.0.slot_count
  pub cut : IsCut r.0 r.1
  pub fresh : r.1.hdr.frame_seq ≡ 0
  pub same_payload : r.1.payload ≡ shm.payload
  -- Any handle to the region reads the format back, and then has the same slots.
  pub agreed : (other : ShmVideoBuffer) → (refresh_geometry other r.1).1 ≡ some vf
  pub same_slots :
      (other : ShmVideoBuffer)
      → (refresh_geometry other r.1).0 ≡ record r.0 { region_len = other.region_len }

-- The number of slots that the region has room for.
abbrev pub slots : ShmVideoBuffer → VideoFormat → ℕ
slots me vf = (me.region_len - size_of_video_header) / align_up_64 vf.frame_size

module _ (me : ShmVideoBuffer) (shm : VideoShm) (vf : VideoFormat)
    (mapped : me.region_len ≤ size_of_video_header + shm.payload.size)
    (word : slots me vf < u32_mod) where
  narrow_slots : as_u32 (slots me vf) ≡ slots me vf
  narrow_slots = mod-eq_of_lt word

  -- A nonzero frame of which at least three, and fewer than 2^32, fit is published: the handle's
  -- slots are cut out of the payload, the stream starts afresh, and every handle to the region
  -- derives the same slots.
  pub set_geometry-Published :
      vf.frame_size ≢ 0
      → video_min_slots ≤ slots me vf
      → Published me shm vf (set_geometry me shm vf)
  unfolding set_geometry refresh_geometry
  set_geometry-Published some_frame enough =
      rw (zero_test, narrow_slots, le→ltb (slots me vf) video_min_slots enough)
        (record {
          returns = refl;
          cut = record {
            some_frame = omega arith;
            enough = enough;
            aligned = (align_up_64_lem vf.frame_size).0;
            holds_frame = (align_up_64_lem vf.frame_size).1;
            fits = omega (
              arith,
              div-mul-le_self (me.region_len - size_of_video_header) (align_up_64 vf.frame_size),
            );
            narrow = word;
          };
          fresh = refl;
          same_payload = refl;
          agreed = λ other. rw zero_test;
          same_slots = λ other. rw zero_test;
        })
    where
      zero_test : (vf.frame_size == 0) ≡ false
      zero_test = ne→== vf.frame_size 0 some_frame

  -- For a region whose payload is mapped and holds fewer than 2^32 slots, `set_geometry` refuses
  -- an empty frame and a region with fewer than three slots, and then changes neither the handle
  -- nor the region.
  pub set_geometry_refuses :
      (vf.frame_size ≡ 0) ⊎ (slots me vf < video_min_slots)
      → ((set_geometry me shm vf).0 ≡ me)
        × ((set_geometry me shm vf).1 ≡ shm)
        × ((e : String) × ((set_geometry me shm vf).2 ≡ err e))
  unfolding set_geometry
  set_geometry_refuses (inl zero_size) =
      let t : (vf.frame_size == 0) ≡ true = eq→== vf.frame_size 0 zero_size in
      (rw t, rw t, ("zero frame_size", rw t))
  set_geometry_refuses (inr few) = elim (ℕ_discrete vf.frame_size 0) [
    | yes e ↦
        let t : (vf.frame_size == 0) ≡ true = eq→== vf.frame_size 0 e in
        (rw t, rw t, ("zero frame_size", rw t))
    | no ne ↦
        let t : (vf.frame_size == 0) ≡ false = ne→== vf.frame_size 0 ne in
        let u : ltb (slots me vf) video_min_slots ≡ true =
          lt→ltb (slots me vf) video_min_slots few in
        (
          rw (t, narrow_slots, u),
          rw (t, narrow_slots, u),
          ("video region too small for >= 3 frame slots", rw (t, narrow_slots, u)),
        )
  ]

-- What `attach` demands of the sub-region.
pub record IsAttachable (shm : VideoShm) (region_len : ℕ) : Type 0 where
  pub room : size_of_video_header < region_len
  pub is_magic : shm.hdr.magic ≡ video_magic
  pub is_version : shm.hdr.version ≡ video_version
  pub is_header_size : shm.hdr.header_size ≡ size_of_video_header

-- `attach` accepts exactly the sub-regions that are attachable, with the published geometry in the
-- handle's cache.
pub attach_video_iff :
    (shm : VideoShm) (region_len : ℕ) (me : ShmVideoBuffer)
    → (attach shm region_len ≡ ok me)
      ↔ (IsAttachable shm region_len × (me ≡ (refresh_geometry (unset region_len) shm).0))
unfolding attach
attach_video_iff shm region_len me = (ground arith, ground arith)

-- After `init` the sub-region is attachable, and its geometry is unset for every handle.
pub init_unset :
    (shm : VideoShm) (region_len : ℕ) {me : ShmVideoBuffer} {shm' : VideoShm}
    → init shm region_len ≡ some (me, shm')
    → IsAttachable shm' region_len
      × (me ≡ unset region_len)
      × (shm'.payload ≡ shm.payload)
      × ((other : ShmVideoBuffer) → refresh_geometry other shm' ≡ (other, none))
unfolding init refresh_geometry
init_unset shm region_len e = (ground arith, ground arith, ground arith, λ other. ground arith)

-- The video sub-region begins behind the audio region, is longer than its header, and ends where the
-- mapping ends; there is none exactly if the mapping has no room for the header.
pub video_region_lem :
    (total : ℕ)
    → ((video_region total ≡ none) ↔ (total ≤ audio_region_bytes + size_of_video_header))
      × ((base len : ℕ)
          → video_region total ≡ some (base, len)
          → (base ≡ audio_region_bytes) × (base + len ≡ total) × (size_of_video_header < len))
unfolding video_region
video_region_lem total = ((ground arith, ground arith), λ base len e. ground arith)

-- `init` panics only if the sub-region has no room behind the header.
pub init_room :
    (shm : VideoShm) (region_len : ℕ)
    → size_of_video_header < region_len
    → (r : ShmVideoBuffer × VideoShm) × (init shm region_len ≡ some r)
unfolding init
init_room shm region_len h = elim (Option-cases (init shm region_len)) [
  | inl e ↦ absurd (never e)
  | inr r ↦ r
]
  where
    never : ¬ (init shm region_len ≡ none)
    never e = ground arith
