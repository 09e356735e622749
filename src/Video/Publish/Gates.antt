-- ===== src/Video/Publish/Gates.antt =====
-- The two gates of the video header: `magic` and `frame_size`.
use lalah.Base.{
  ℕ, zero, suc, ◌<◌, ◌≤◌, ◌≡◌, ◌≢◌, ◌⊎◌, inl, inr, refl, sym, ap, ◌∙◌, fun_ext, none, some, arith,
  ok, err,
}
use native.Mathlib.Decide.{dec_lt}
use lalah.Base.Stores.{after, run, after-run}
use lalah.Video.Header.{VideoFormat, ShmVideoHeader, video_magic, size_of_video_header}
use lalah.Video.Ring.{VideoShm, ShmVideoBuffer, unset, init, attach, set_geometry, refresh_geometry}
use lalah.Video.Ring.Geometry.{IsAttachable, attach_video_iff, init_unset}
use lalah.Video.Publish.{init_video_stores, geometry_stores, refresh_loads, attach_video_loads}

-- The magic is stored last.
magic_last : (t : ℕ) (h : ShmVideoHeader) → t < 10 → (after init_video_stores t h).magic ≡ h.magic
magic_last zero h lt = refl
magic_last (suc zero) h lt = refl
magic_last (suc (suc zero)) h lt = refl
magic_last (suc (suc (suc zero))) h lt = refl
magic_last (suc (suc (suc (suc zero)))) h lt = refl
magic_last (suc (suc (suc (suc (suc zero))))) h lt = refl
magic_last (suc (suc (suc (suc (suc (suc zero)))))) h lt = refl
magic_last (suc (suc (suc (suc (suc (suc (suc zero))))))) h lt = refl
magic_last (suc (suc (suc (suc (suc (suc (suc (suc zero)))))))) h lt = refl
magic_last (suc (suc (suc (suc (suc (suc (suc (suc (suc zero))))))))) h lt = refl
magic_last (suc (suc (suc (suc (suc (suc (suc (suc (suc (suc t)))))))))) h lt = absurd (omega arith)

-- The frame size is stored last.
frame_size_last :
    (vf : VideoFormat) (n t : ℕ) (h : ShmVideoHeader)
    → t < 7
    → (after (geometry_stores vf n) t h).frame_size ≡ h.frame_size
frame_size_last vf n zero h lt = refl
frame_size_last vf n (suc zero) h lt = refl
frame_size_last vf n (suc (suc zero)) h lt = refl
frame_size_last vf n (suc (suc (suc zero))) h lt = refl
frame_size_last vf n (suc (suc (suc (suc zero)))) h lt = refl
frame_size_last vf n (suc (suc (suc (suc (suc zero))))) h lt = refl
frame_size_last vf n (suc (suc (suc (suc (suc (suc zero)))))) h lt = refl
frame_size_last vf n (suc (suc (suc (suc (suc (suc (suc t))))))) h lt = absurd (omega arith)

init_video_runs :
    (shm : VideoShm) (region_len : ℕ) {me : ShmVideoBuffer} {shm' : VideoShm}
    → init shm region_len ≡ some (me, shm')
    → run init_video_stores shm.hdr ≡ shm'.hdr
unfolding init
init_video_runs shm region_len e = ground arith

set_geometry_runs :
    (me : ShmVideoBuffer) (shm : VideoShm) (vf : VideoFormat) {me' : ShmVideoBuffer}
    {shm' : VideoShm} {n : ℕ}
    → set_geometry me shm vf ≡ (me', shm', ok n)
    → run (geometry_stores vf n) shm.hdr ≡ shm'.hdr
unfolding set_geometry
set_geometry_runs me shm vf e = ground arith

refresh_at_rest :
    (me : ShmVideoBuffer) (shm : VideoShm)
    → refresh_loads me (λ _. shm.hdr) ≡ refresh_geometry me shm
unfolding refresh_loads refresh_geometry
refresh_at_rest me shm = refl

attach_video_at_rest :
    (shm : VideoShm) (region_len : ℕ)
    → attach_video_loads region_len (λ _. shm.hdr) ≡ attach shm region_len
unfolding attach_video_loads attach refresh_loads refresh_geometry
attach_video_at_rest shm region_len = refl

-- Before the gates stand.
attach_video_closed :
    (region_len : ℕ) (seen : ℕ → ShmVideoHeader)
    → size_of_video_header < region_len
    → (seen 0).magic ≢ video_magic
    → attach_video_loads region_len seen ≡ err "bad video magic (region not initialized yet)"
unfolding attach_video_loads
attach_video_closed region_len seen room ne = ground arith

refresh_closed :
    (me : ShmVideoBuffer) (seen : ℕ → ShmVideoHeader)
    → (seen 0).frame_size ≡ 0
    → refresh_loads me seen ≡ (me, none)
unfolding refresh_loads
refresh_closed me seen e = ground arith

-- The header while `init`, or `set_geometry` with `n` slots, is under way.
abbrev pub init_video_after : VideoShm → (t : ℕ) → ShmVideoHeader
init_video_after shm t = after init_video_stores t shm.hdr

abbrev pub geometry_after : VideoShm → VideoFormat → (n t : ℕ) → ShmVideoHeader
geometry_after shm vf n t = after (geometry_stores vf n) t shm.hdr

module _ (shm : VideoShm) (at : ℕ → ℕ) (rising : (i j : ℕ) → i ≤ j → at i ≤ at j) where
  -- On a sub-region whose magic is not set, with the loads of the guest's `attach` falling
  -- anywhere between the stores of the host's `init`: if the magic is loaded before the last
  -- store, `attach` refuses; otherwise it gives the handle that `init` gives.
  pub attach-init_video :
      (region_len : ℕ) {me : ShmVideoBuffer} {shm' : VideoShm}
      → shm.hdr.magic ≢ video_magic
      → init shm region_len ≡ some (me, shm')
      → ((at 0 < 10)
          × (attach_video_loads region_len (λ i. init_video_after shm (at i))
              ≡ err "bad video magic (region not initialized yet)"))
        ⊎ ((10 ≤ at 0) × (attach_video_loads region_len (λ i. init_video_after shm (at i)) ≡ ok me))
  attach-init_video region_len {me} {shm'} fresh e = elim (dec_lt (at 0) 10) [
    | yes early ↦ inl (
      early,
      attach_video_closed region_len (λ i. init_video_after shm (at i)) a.room
          (λ m. fresh (sym (magic_last (at 0) shm.hdr early) ∙ m)),
    )
    | no late ↦ inr (
      omega arith,
      ap (attach_video_loads region_len)
            (fun_ext (λ i. complete (at i) (omega (arith, rising 0 i (omega arith)))))
          ∙ attach_video_at_rest shm' region_len
          ∙ (attach_video_iff shm' region_len me).1 (a, handle),
    )
  ]
    where
      a : IsAttachable shm' region_len
      a = (init_unset shm region_len e).0

      handle : me ≡ (refresh_geometry (unset region_len) shm').0
      handle =
          (init_unset shm region_len e).1
          ∙ sym (
              ap (λ (r : ShmVideoBuffer × _). r.0)
                ((init_unset shm region_len e).3 (unset region_len)))

      complete : (t : ℕ) → 10 ≤ t → init_video_after shm t ≡ shm'.hdr
      complete t le = after-run init_video_stores t shm.hdr le ∙ init_video_runs shm region_len e

  -- While the geometry is unset, with the loads of the host's `refresh_geometry` falling anywhere
  -- between the stores of a `set_geometry` that succeeds: if the gate is loaded before the last
  -- store there is no geometry and the handle stays, and otherwise handle and geometry are those
  -- that `refresh_geometry` gives after `set_geometry`, never a mixture.
  pub geometry-publish :
      (me other : ShmVideoBuffer) (vf : VideoFormat) {me' : ShmVideoBuffer} {shm' : VideoShm}
      {n : ℕ}
      → shm.hdr.frame_size ≡ 0
      → set_geometry me shm vf ≡ (me', shm', ok n)
      → ((at 0 < 7) × (refresh_loads other (λ i. geometry_after shm vf n (at i)) ≡ (other, none)))
        ⊎ ((7 ≤ at 0)
            × (refresh_loads other (λ i. geometry_after shm vf n (at i))
                ≡ refresh_geometry other shm'))
  geometry-publish me other vf {me'} {shm'} {n} closed e = elim (dec_lt (at 0) 7) [
    | yes early ↦ inl (
      early,
      refresh_closed other (λ i. geometry_after shm vf n (at i))
          (frame_size_last vf n (at 0) shm.hdr early ∙ closed),
    )
    | no late ↦ inr (
      omega arith,
      ap (refresh_loads other)
            (fun_ext (λ i. complete (at i) (omega (arith, rising 0 i (omega arith)))))
          ∙ refresh_at_rest other shm',
    )
  ]
    where
      complete : (t : ℕ) → 7 ≤ t → geometry_after shm vf n t ≡ shm'.hdr
      complete t le = after-run (geometry_stores vf n) t shm.hdr le ∙ set_geometry_runs me shm vf e
