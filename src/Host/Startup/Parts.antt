-- ===== src/Host/Startup/Parts.antt =====
-- The two parts that the host prepares (lalah-host/src/main.rs): the audio ring and the frame
-- ring.
use lalah.Base.{
  ℕ, ◌+◌, ◌-◌, ◌*◌, ◌^◌, ◌≤◌, ◌<◌, ◌≡◌, inl, inr, Option-cases, u64_mod, refl, ap, ◌∙◌, Bool, true,
  some, arith, if◌then◌else◌, ok, ne→==, lt→leb,
}
use native.Mathlib.Nat.{two-pow-succ}
use lalah.Base.Zeros.{leading_zeros, leading_zeros_lem}
use lalah.Base.Bits.{is_power_of_two, is_power_of_two-pow}
use lalah.Audio.Header.{size_of_header}
use lalah.Audio.Ring.{Shm, ShmAudioBuffer, init as init_audio}
use lalah.Audio.Ring.Attach.{Ready, init-Ready, init-IsAttachable, init_panics}
use lalah.Video.Header.{audio_region_bytes, size_of_video_header, video_region}
use lalah.Video.Ring.{VideoShm, unset}
use lalah.Video.Ring.Geometry.{init_room, IsAttachable, init_unset}
use lalah.Host.Startup.{VideoPart, start_video, prev_power_of_two}

-- For a nonzero word, `prev_power_of_two` is a power of two at most the word, and its double is
-- above the word.
pub prev_power_of_two_lem :
    (n : ℕ)
    → 0 < n
    → n < 2 ^ 64
    → (is_power_of_two (prev_power_of_two n) ≡ true)
      × (prev_power_of_two n ≤ n)
      × (n < 2 * prev_power_of_two n)
unfolding prev_power_of_two
prev_power_of_two_lem n pos word =
    let (k, a, b, c) = leading_zeros_lem 64 n pos word in
    let e : 64 - 1 - leading_zeros 64 n ≡ k = omega (arith, a) in
    rw (ne→== n 0 (omega arith), e)
      (is_power_of_two-pow k (omega (arith, a)), b, omega (arith, c, two-pow-succ k))

-- A ring of a size that fits the mapping is prepared without a panic.
pub audio_part :
    (total size : ℕ) (shm : Shm)
    → size_of_header < total
    → is_power_of_two size ≡ true
    → size ≤ total - size_of_header
    → total < u64_mod
    → total ≤ size_of_header + shm.payload.size
    → (r : ShmAudioBuffer × Shm) × (init_audio shm total size ≡ some r)
      × Ready r.1 total r.0
      × (r.0.cap ≡ size)
audio_part total size shm room pow fits word mapped =
    elim (Option-cases (init_audio shm total size)) [
      | inl e ↦ elim ((init_panics shm total size).0 e) [
        | inl small ↦ absurd (omega arith)
        | inr (inl odd) ↦ absurd (ground arith)
        | inr (inr large) ↦ absurd (omega arith)
      ]
      | inr (r, e) ↦
          let (a, m, same, c) = init-IsAttachable shm total size e in
          (
            r,
            e,
            init-Ready shm total size (omega arith) mapped e,
            ap (λ (me : ShmAudioBuffer). me.cap) m ∙ c,
          )
    ]

-- The mapping must be longer than this.
abbrev pub too_small : Bool → ℕ
too_small video = if video then audio_region_bytes + size_of_video_header else size_of_header

-- The frame ring of a mapping that has room for its header.
pub video_part :
    (total : ℕ) (vshm : VideoShm)
    → too_small true < total
    → (v : VideoPart) × (start_video total vshm ≡ some (ok v))
      × (v.base ≡ audio_region_bytes)
      × (v.base + v.len ≡ total)
      × IsAttachable v.shm v.len
      × (v.handle ≡ unset v.len)
unfolding start_video video_region
video_part total vshm room =
    let len : ℕ = total - audio_region_bytes in
    let longer : size_of_video_header < len = omega arith in
    let (r, e) = init_room vshm len longer in
    let (a, m, p, n) = init_unset vshm len e in
    (
      record { base = audio_region_bytes; len = len; handle = r.0; shm = r.1 },
      rw (lt→leb total (audio_region_bytes + size_of_video_header) room, e) refl,
      refl,
      omega arith,
      a,
      m,
    )
