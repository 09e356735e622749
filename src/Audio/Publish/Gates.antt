-- ===== src/Audio/Publish/Gates.antt =====
-- The two gates of the audio header: `magic` and `frame_bytes`.
use lalah.Base.{
  ℕ, zero, suc, ◌<◌, ◌≤◌, ◌≡◌, ◌≢◌, ◌⊎◌, inl, inr, refl, sym, ◌∙◌, none, some, arith, ok, err,
}
use native.Mathlib.Decide.{dec_lt}
use lalah.Base.Stores.{after, run, after-run}
use lalah.Audio.Header.{ShmHeader, AudioFormat, shm_magic, size_of_header}
use lalah.Audio.Ring.{Shm, ShmAudioBuffer, init, attach, set_format, format}
use lalah.Audio.Ring.Attach.{IsAttachable, attach_iff, init-IsAttachable}
use lalah.Audio.Publish.{init_stores, format_stores, attach_loads, format_loads}

-- The magic is stored last.
magic_last : (cap t : ℕ) (h : ShmHeader) → t < 11 → (after (init_stores cap) t h).magic ≡ h.magic
magic_last cap zero h lt = refl
magic_last cap (suc zero) h lt = refl
magic_last cap (suc (suc zero)) h lt = refl
magic_last cap (suc (suc (suc zero))) h lt = refl
magic_last cap (suc (suc (suc (suc zero)))) h lt = refl
magic_last cap (suc (suc (suc (suc (suc zero))))) h lt = refl
magic_last cap (suc (suc (suc (suc (suc (suc zero)))))) h lt = refl
magic_last cap (suc (suc (suc (suc (suc (suc (suc zero))))))) h lt = refl
magic_last cap (suc (suc (suc (suc (suc (suc (suc (suc zero)))))))) h lt = refl
magic_last cap (suc (suc (suc (suc (suc (suc (suc (suc (suc zero))))))))) h lt = refl
magic_last cap (suc (suc (suc (suc (suc (suc (suc (suc (suc (suc zero)))))))))) h lt = refl
magic_last cap (suc (suc (suc (suc (suc (suc (suc (suc (suc (suc (suc t))))))))))) h lt =
    absurd (omega arith)

-- The frame size is stored last.
frame_bytes_last :
    (fmt : AudioFormat) (t : ℕ) (h : ShmHeader)
    → t < 4
    → (after (format_stores fmt) t h).frame_bytes ≡ h.frame_bytes
frame_bytes_last fmt zero h lt = refl
frame_bytes_last fmt (suc zero) h lt = refl
frame_bytes_last fmt (suc (suc zero)) h lt = refl
frame_bytes_last fmt (suc (suc (suc zero))) h lt = refl
frame_bytes_last fmt (suc (suc (suc (suc t)))) h lt = absurd (omega arith)

init_runs :
    (shm : Shm) (total_size cap : ℕ) {me : ShmAudioBuffer} {shm' : Shm}
    → init shm total_size cap ≡ some (me, shm')
    → run (init_stores cap) shm.hdr ≡ shm'.hdr
unfolding init
init_runs shm total_size cap e = ground arith

set_format_runs :
    (shm : Shm) (fmt : AudioFormat) → run (format_stores fmt) shm.hdr ≡ (set_format shm fmt).hdr
unfolding set_format
set_format_runs shm fmt = refl

attach_at_rest :
    (shm : Shm) (total_size : ℕ)
    → attach_loads total_size shm.hdr shm.hdr shm.hdr shm.hdr ≡ attach shm total_size
unfolding attach attach_loads
attach_at_rest shm total_size = refl

format_at_rest : (shm : Shm) → format_loads shm.hdr shm.hdr shm.hdr shm.hdr ≡ format shm
unfolding format format_loads
format_at_rest shm = refl

-- Before the magic stands, `attach` refuses.
attach_closed :
    (total_size : ℕ) (a b c d : ShmHeader)
    → size_of_header < total_size
    → a.magic ≢ shm_magic
    → attach_loads total_size a b c d ≡ err "bad magic (region not initialized yet)"
unfolding attach_loads
attach_closed total_size a b c d room ne = ground arith

format_closed : (a b c d : ShmHeader) → a.frame_bytes ≡ 0 → format_loads a b c d ≡ none
unfolding format_loads
format_closed a b c d e = ground arith

-- Loads that all come after the last store are those of the operation alone.
attach_open :
    (total_size : ℕ) {a b c d h : ShmHeader}
    → a ≡ h
    → b ≡ h
    → c ≡ h
    → d ≡ h
    → attach_loads total_size a b c d ≡ attach_loads total_size h h h h
attach_open total_size ea eb ec ed = rw (ea, eb, ec, ed) refl

format_open :
    {a b c d h : ShmHeader}
    → a ≡ h
    → b ≡ h
    → c ≡ h
    → d ≡ h
    → format_loads a b c d ≡ format_loads h h h h
format_open ea eb ec ed = rw (ea, eb, ec, ed) refl

-- The header while `init`, or `set_format`, is under way.
abbrev pub init_after : Shm → (cap t : ℕ) → ShmHeader
init_after shm cap t = after (init_stores cap) t shm.hdr

abbrev pub format_after : Shm → AudioFormat → (t : ℕ) → ShmHeader
format_after shm fmt t = after (format_stores fmt) t shm.hdr

module _ (shm : Shm) {t0 t1 t2 t3 : ℕ} (le1 : t0 ≤ t1) (le2 : t1 ≤ t2) (le3 : t2 ≤ t3) where
  -- On a region whose magic is not set, with the loads of the guest's `attach` falling anywhere
  -- between the stores of the host's `init`: if the magic is loaded before the last store,
  -- `attach` refuses; otherwise it gives the handle that `init` gives, and sees the whole header
  -- that `init` leaves.
  pub attach-init :
      (total_size cap : ℕ) {me : ShmAudioBuffer} {shm' : Shm}
      → shm.hdr.magic ≢ shm_magic
      → init shm total_size cap ≡ some (me, shm')
      → ((t0 < 11)
          × (attach_loads total_size
                (init_after shm cap t0)
                (init_after shm cap t1)
                (init_after shm cap t2)
                (init_after shm cap t3)
              ≡ err "bad magic (region not initialized yet)"))
        ⊎ ((11 ≤ t0)
            × (attach_loads total_size
                  (init_after shm cap t0)
                  (init_after shm cap t1)
                  (init_after shm cap t2)
                  (init_after shm cap t3)
                ≡ ok me)
            × (init_after shm cap t3 ≡ shm'.hdr))
  attach-init total_size cap {me} {shm'} fresh e = elim (dec_lt t0 11) [
    | yes early ↦ inl (
      early,
      attach_closed total_size (init_after shm cap t0) (init_after shm cap t1)
          (init_after shm cap t2) (init_after shm cap t3) room
          (λ m. fresh (sym (magic_last cap t0 shm.hdr early) ∙ m)),
    )
    | no late ↦ inr (
      omega arith,
      attach_open total_size (complete t0 (omega arith)) (complete t1 (omega arith))
            (complete t2 (omega arith)) (complete t3 (omega arith))
          ∙ attach_at_rest shm' total_size
          ∙ (attach_iff shm' total_size me).1 (a, m),
      complete t3 (omega arith),
    )
  ]
    where
      a : IsAttachable shm' total_size
      a = (init-IsAttachable shm total_size cap e).0

      m : me ≡ record { cap = shm'.hdr.capacity }
      m = (init-IsAttachable shm total_size cap e).1

      room : size_of_header < total_size
      room = a.room

      complete : (t : ℕ) → 11 ≤ t → init_after shm cap t ≡ shm'.hdr
      complete t le = after-run (init_stores cap) t shm.hdr le ∙ init_runs shm total_size cap e

  -- While the format is unset, with the loads of the host's `format` falling anywhere between the
  -- stores of the guest's `set_format`: if the gate is loaded before the last store there is no
  -- format, and otherwise it is what `format` gives after `set_format`, never a mixture.
  pub format-publish :
      (fmt : AudioFormat)
      → shm.hdr.frame_bytes ≡ 0
      → ((t0 < 4)
          × (format_loads
                (format_after shm fmt t0)
                (format_after shm fmt t1)
                (format_after shm fmt t2)
                (format_after shm fmt t3)
              ≡ none))
        ⊎ ((4 ≤ t0)
            × (format_loads
                  (format_after shm fmt t0)
                  (format_after shm fmt t1)
                  (format_after shm fmt t2)
                  (format_after shm fmt t3)
                ≡ format (set_format shm fmt)))
  format-publish fmt unset = elim (dec_lt t0 4) [
    | yes early ↦ inl (
      early,
      format_closed (format_after shm fmt t0) (format_after shm fmt t1) (format_after shm fmt t2)
          (format_after shm fmt t3) (frame_bytes_last fmt t0 shm.hdr early ∙ unset),
    )
    | no late ↦ inr (
      omega arith,
      format_open (complete t0 (omega arith)) (complete t1 (omega arith))
            (complete t2 (omega arith)) (complete t3 (omega arith))
          ∙ format_at_rest (set_format shm fmt),
    )
  ]
    where
      complete : (t : ℕ) → 4 ≤ t → format_after shm fmt t ≡ (set_format shm fmt).hdr
      complete t le = after-run (format_stores fmt) t shm.hdr le ∙ set_format_runs shm fmt
