-- ===== src/Guest/Wasapi/Words.antt =====
-- The header words that the capture loop (wasapi.rs) does not touch.
use lalah.Base.{
  ℕ, Option, ◌%◌, ◌≡◌, inl, inr, refl, sym, subst, ap, ◌∙◌, some, List, [], ◌∷◌, arith, bind_inv,
  Bool-cases, ◌==◌,
}
use mathlib.Core.Option.{some-injective}
use lalah.Audio.Ring.{Shm, ShmAudioBuffer, push_overwrite, format}
use lalah.Guest.Wasapi.{
  Packet, packet_bytes, Ending, empty, fails, go_on, Wake, signalled, other, drain, Stop, failed,
  capture_loop,
}

-- The format and the reader's position are the same, and the counter stays even.
pub record IsSame (shm shm' : Shm) : Type 0 where
  pub same_format : format shm' ≡ format shm
  pub same_head : shm'.hdr.head ≡ shm.hdr.head
  pub parity : shm'.hdr.seq % 2 ≡ shm.hdr.seq % 2

IsSame-trans : {a b c : Shm} → IsSame a b → IsSame b c → IsSame a c
IsSame-trans p q = record {
  same_format = q.same_format ∙ p.same_format;
  same_head = q.same_head ∙ p.same_head;
  parity = q.parity ∙ p.parity;
}

IsSame-refl : {a b : Shm} → some a ≡ some b → IsSame a b
IsSame-refl {a} {b} e =
    subst (IsSame a) (some-injective a b e)
      (record { same_format = refl; same_head = refl; parity = refl })

push-IsSame :
    (me : ShmAudioBuffer) (shm shm' : Shm) (src : List ℕ)
    → push_overwrite me shm src ≡ some shm'
    → IsSame shm shm'
unfolding push_overwrite format
push-IsSame me shm shm' src e = record {
  same_format = ground arith;
  same_head = ground arith;
  parity = ground arith;
}

drain-IsSame :
    (me : ShmAudioBuffer) (block_align : ℕ) (shm : Shm) (ps : List Packet) (end : Ending)
    (r : Shm × Ending)
    → drain me block_align shm ps end ≡ some r
    → IsSame shm r.0
unfolding drain
drain-IsSame me block_align shm [] end r e =
    IsSame-refl (ap some (ap (λ (q : Shm × Ending). q.0) (some-injective (shm, end) r e)))
drain-IsSame me block_align shm (p ∷ ps) end r e = elim (Bool-cases (p.frames == 0)) [
  | inl t ↦ IsSame-refl (
      ap some
        (ap (λ (q : Shm × Ending). q.0) (some-injective (shm, empty) r (sym (rw t refl) ∙ e))))
  | inr f ↦
      let (mid, e', again) =
        bind_inv (push_overwrite me shm (packet_bytes block_align p))
          (λ m. drain me block_align m ps end) r (sym (rw f refl) ∙ e) in
      IsSame-trans (push-IsSame me shm mid (packet_bytes block_align p) e')
        (drain-IsSame me block_align mid ps end r again)
]

go_on-IsSame :
    (r : Shm × Ending) (again : Shm → Option (Shm × Stop)) (shm' : Shm) (s : Stop)
    → ((m : Shm) → again m ≡ some (shm', s) → IsSame m shm')
    → go_on r again ≡ some (shm', s)
    → IsSame r.0 shm'
go_on-IsSame (mid, empty) again shm' s same e = same mid e
go_on-IsSame (mid, fails hresult) again shm' s same e =
    IsSame-refl
      (ap some (ap (λ (q : Shm × Stop). q.0) (some-injective (mid, failed hresult) (shm', s) e)))

pub capture_loop-IsSame :
    (me : ShmAudioBuffer) (block_align : ℕ) (shm shm' : Shm) (ws : List Wake) (s : Stop)
    → capture_loop me block_align shm ws ≡ some (shm', s)
    → IsSame shm shm'
unfolding capture_loop
capture_loop-IsSame me block_align shm shm' [] s e =
    IsSame-refl (ap some (ap (λ (r : Shm × Stop). r.0) (some-injective (shm, _) (shm', s) e)))
capture_loop-IsSame me block_align shm shm' (other ∷ ws) s e =
    IsSame-refl (ap some (ap (λ (r : Shm × Stop). r.0) (some-injective (shm, _) (shm', s) e)))
capture_loop-IsSame me block_align shm shm' (signalled ps end ∷ ws) s e =
    let (r, e', again) =
      bind_inv (drain me block_align shm ps end)
        (λ q. go_on q (λ m. capture_loop me block_align m ws)) (shm', s) e in
    IsSame-trans (drain-IsSame me block_align shm ps end r e') (
      go_on-IsSame r (λ m. capture_loop me block_align m ws) shm' s
        (λ m e''. capture_loop-IsSame me block_align m shm' ws s e'') again)
