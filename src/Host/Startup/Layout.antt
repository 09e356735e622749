-- ===== src/Host/Startup/Layout.antt =====
-- The host's start as a whole (lalah-host/src/main.rs): both parts, and every way to fail.
use Prim.Native.String.{String}
use lalah.Base.{
  ℕ, ◌+◌, ◌-◌, ◌*◌, ◌≤◌, ◌<◌, ◌≡◌, subst, u64_mod, refl, Bool, true, false, none, some, arith,
  if◌then◌else◌, ok, err, lt→leb, le→leb,
}
use native.Mathlib.Decide.{dec_le}
use mathlib.Core.Option.{some-injective}
use lalah.Audio.Header.{size_of_header}
use lalah.Audio.Ring.{Shm, ShmAudioBuffer, init as init_audio}
use lalah.Audio.Ring.Attach.{Ready}
use lalah.Video.Header.{audio_region_bytes, video_region}
use lalah.Video.Ring.{VideoShm, unset}
use lalah.Video.Ring.Geometry.{IsAttachable, video_region_lem}
use lalah.Host.Startup.{VideoPart, Started, start_video, start, prev_power_of_two, ring_capacity}
use lalah.Host.Startup.Parts.{prev_power_of_two_lem, audio_part, too_small, video_part}

-- The host is ready for the guest: the ring is prepared, its capacity is the largest that fits, and
-- the frame ring, if there is one, lies behind the audio ring and ends with the mapping.
pub record IsPrepared (total room : ℕ) (s : Started) : Type 0 where
  pub ready : Ready s.shm total s.ring
  pub largest : (s.ring.cap ≤ room - size_of_header) × (room - size_of_header < 2 * s.ring.cap)
  pub apart :
      (v : VideoPart)
      → s.video ≡ some v
      → (size_of_header + s.ring.cap ≤ v.base)
        × (v.base + v.len ≡ total)
        × IsAttachable v.shm v.len
        × (v.handle ≡ unset v.len)

-- The bytes at the start of the mapping that are the audio ring's.
abbrev pub audio_room : ℕ → Bool → ℕ
audio_room total video = if video then audio_region_bytes else total

capacity_audio :
    (total : ℕ)
    → size_of_header < total
    → ring_capacity total false ≡ ok (prev_power_of_two (total - size_of_header))
unfolding ring_capacity
capacity_audio total h = ground arith

capacity_both :
    (total : ℕ)
    → audio_region_bytes < total
    → ring_capacity total true ≡ ok (prev_power_of_two (audio_region_bytes - size_of_header))
unfolding ring_capacity
capacity_both total h = ground arith

runs_audio :
    (total size : ℕ) (shm : Shm) (vshm : VideoShm) (r : ShmAudioBuffer × Shm)
    → ring_capacity total false ≡ ok size
    → init_audio shm total size ≡ some r
    → start total false shm vshm ≡ some (ok (record { ring = r.0; shm = r.1; video = none }))
unfolding start
runs_audio total size shm vshm r c e = rw (c, e) refl

runs_both :
    (total size : ℕ) (shm : Shm) (vshm : VideoShm) (r : ShmAudioBuffer × Shm) (v : VideoPart)
    → ring_capacity total true ≡ ok size
    → init_audio shm total size ≡ some r
    → start_video total vshm ≡ some (ok v)
    → start total true shm vshm ≡ some (ok (record { ring = r.0; shm = r.1; video = some v }))
unfolding start
runs_both total size shm vshm r v c e ev = rw (c, e, ev) refl

-- What `start` returns for a mapping that is long enough, and the error for one that is not.
pub data Outcome (total : ℕ) (shm : Shm) (vshm : VideoShm) (video : Bool) : Type 0 where
  prepared :
      (s : Started)
      → start total video shm vshm ≡ some (ok s)
      → IsPrepared total (audio_room total video) s
      → Outcome total shm vshm video
  refused :
      (e : String)
      → start total video shm vshm ≡ some (err e)
      → total ≤ too_small video
      → Outcome total shm vshm video

module _ (total : ℕ) (shm : Shm) (vshm : VideoShm) where
  refused_low :
      total ≤ audio_region_bytes → (e : String) × (start total true shm vshm ≡ some (err e))
  unfolding start ring_capacity
  refused_low h = elim (dec_le total size_of_header) [
    | yes small ↦ ("shm region too small for header", rw (le→leb total size_of_header small) refl)
    | no more ↦ (
      "--video-fifo set but shm region <= audio region; grow QEMU size=",
      rw (lt→leb total size_of_header (omega arith), le→leb total audio_region_bytes h) refl,
    )
  ]

  refused_late :
      (size : ℕ) (r : ShmAudioBuffer × Shm)
      → ring_capacity total true ≡ ok size
      → init_audio shm total size ≡ some r
      → video_region total ≡ none
      → (e : String) × (start total true shm vshm ≡ some (err e))
  unfolding start start_video
  refused_late size r c e n = (
    "--video-fifo set but shm region has no room past the audio region; grow QEMU size=",
    rw (c, e, n) refl,
  )

module _ (total : ℕ) (shm : Shm) (vshm : VideoShm) (word : total < u64_mod)
    (mapped : total ≤ size_of_header + shm.payload.size) where
  start_audio : size_of_header < total → Outcome total shm vshm false
  start_audio room =
      let (pow, low, high) =
        prev_power_of_two_lem (total - size_of_header) (omega arith) (omega arith) in
      let (r, e, ready, c) =
        audio_part total (prev_power_of_two (total - size_of_header)) shm room pow low word
          mapped in
      prepared (record { ring = r.0; shm = r.1; video = none })
        (runs_audio total (prev_power_of_two (total - size_of_header)) shm vshm r
          (capacity_audio total room) e)
        (record {
          ready = ready;
          largest = rw c (low, high);
          apart = λ v e'. absurd (ground arith);
        })

  refused_audio :
      total ≤ size_of_header
      → start total false shm vshm ≡ some (err "shm region too small for header")
  unfolding start ring_capacity
  refused_audio h = rw (le→leb total size_of_header h) refl

  refused_both : total ≤ too_small true → (e : String) × (start total true shm vshm ≡ some (err e))
  refused_both h = elim (dec_le total audio_region_bytes) [
    | yes low ↦ refused_low total shm vshm low
    | no high ↦
        let size : ℕ = prev_power_of_two (audio_region_bytes - size_of_header) in
        let (pow, low, top) =
          prev_power_of_two_lem (audio_region_bytes - size_of_header) (omega arith) (omega arith) in
        let (r, e, ready, c) =
          audio_part total size shm (omega arith) pow (omega (arith, low)) word mapped in
        refused_late total shm vshm size r (capacity_both total (omega arith)) e
          ((video_region_lem total).0.1 h)
  ]

  start_both : too_small true < total → Outcome total shm vshm true
  start_both room =
      let size : ℕ = prev_power_of_two (audio_region_bytes - size_of_header) in
      let (pow, low, high) =
        prev_power_of_two_lem (audio_region_bytes - size_of_header) (omega arith) (omega arith) in
      let (r, e, ready, c) =
        audio_part total size shm (omega arith) pow (omega (arith, low)) word mapped in
      let (v, ev, base, ends, a, m) = video_part total vshm room in
      prepared (record { ring = r.0; shm = r.1; video = some v })
        (runs_both total size shm vshm r v (capacity_both total (omega arith)) e ev)
        (record {
          ready = ready;
          largest = rw c (low, high);
          apart = λ v' e'.
              let same : v ≡ v' = some-injective v v' e' in
              subst
                (λ (w : VideoPart).
                  (size_of_header + r.0.cap ≤ w.base)
                  × (w.base + w.len ≡ total)
                  × IsAttachable w.shm w.len
                  × (w.handle ≡ unset w.len))
                same (omega (arith, c, low, base), ends, a, m);
        })

  -- For every mapping of fewer than 2^64 bytes, with and without video, the host's start never
  -- panics. A mapping that is long enough is prepared: the ring is ready for the guest, its
  -- capacity is the largest power of two that fits, and the frame ring lies behind it and ends
  -- with the mapping. One that is too short is refused with an error.
  pub start-Outcome : (video : Bool) → Outcome total shm vshm video
  start-Outcome false = elim (dec_le total size_of_header) [
    | yes h ↦ refused "shm region too small for header" (refused_audio h) h
    | no h ↦ start_audio (omega arith)
  ]
  start-Outcome true = elim (dec_le total (too_small true)) [
    | yes h ↦ refused (refused_both h).0 (refused_both h).1 h
    | no h ↦ start_both (omega arith)
  ]
