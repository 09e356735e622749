-- ===== src/Audio/Ring/Push.antt =====
-- `push_overwrite` and the stream.
use lalah.Base.{
  ℕ, ◌+◌, ◌%◌, ◌≤◌, ◌<◌, ◌≡◌, refl, sym, ◌∙◌, List, ◌++◌, some, arith, ◌==◌, if◌then◌else◌, length,
  length-append, u64_mod, wrapping_add, ne→==, eq→==, ◌≢◌, nil_of_length, false,
}
use mathlib.Core.List.{append-nil}
use native.Mathlib.Decide.{ℕ_discrete}
use native.Mathlib.Nat.{mod-lt, mod-eq_of_lt}
use lalah.Memory.{Memory}
use lalah.Audio.Header.{ShmHeader}
use lalah.Audio.Ring.{Shm, ShmAudioBuffer, newest, copy_in, push_overwrite}
use lalah.Audio.Ring.Index.{Wrote, copy_in_lem}
use lalah.Audio.Ring.Stream.{IsValid, Holds, Wrote-Kept, cap_pos, mask-IsValid, length-newest}

-- The header after a push of `n` bytes.
abbrev pub pushed_header : ShmHeader → ℕ → ShmHeader
pushed_header h n =
    if n == 0 then h else record h { tail = wrapping_add h.tail n; seq = wrapping_add h.seq 2 }

-- What a push of `src` onto `stream` leaves.
pub record Pushed (me : ShmAudioBuffer) (shm : Shm) (stream src : List ℕ) (shm' : Shm)
    : Type 0 where
  pub returns : push_overwrite me shm src ≡ some shm'
  pub header : shm'.hdr ≡ pushed_header shm.hdr (length (newest me src))
  pub holds : Holds me shm' (stream ++ newest me src)
  pub same_size : shm'.payload.size ≡ shm.payload.size
  pub outside : (j : ℕ) → me.cap ≤ j → shm'.payload.cell j ≡ shm.payload.cell j

module _ {me : ShmAudioBuffer} {shm : Shm} {stream : List ℕ} (v : IsValid me shm)
    (h : Holds me shm stream) (src : List ℕ)
    (room : length stream + length (newest me src) < u64_mod) where
  Pushed-nothing : length (newest me src) ≡ 0 → Pushed me shm stream src shm
  unfolding push_overwrite
  Pushed-nothing e = record {
    returns = rw (eq→== (length (newest me src)) 0 e);
    header = rw (eq→== (length (newest me src)) 0 e);
    holds = rw (nil_of_length (newest me src) e, append-nil) h;
    same_size = refl;
    outside = λ j q. refl;
  }

  start-lt : shm.hdr.tail % me.cap < me.cap
  start-lt = mod-lt shm.hdr.tail (cap_pos v)

  Pushed-some : length (newest me src) ≢ 0 → (shm' : Shm) × Pushed me shm stream src shm'
  unfolding push_overwrite
  Pushed-some ne = (
    shm',
    record {
      returns = rw (test, mask-IsValid v shm.hdr.tail, copied.1);
      header = rw test;
      holds = record {
        count = rw h.count (mod-eq_of_lt room ∙ sym (length-append stream (newest me src)));
        small = omega (arith, length-append stream (newest me src));
        kept =
            Wrote-Kept me.cap stream (newest me src) (cap_pos v) (length-newest me src) w' h.kept;
      };
      same_size = copied.2.same_size;
      outside = copied.2.outside;
    },
  )
    where
      test : (length (newest me src) == 0) ≡ false
      test = ne→== (length (newest me src)) 0 ne

      copied :
          (m' : Memory) × (copy_in me shm.payload (shm.hdr.tail % me.cap) (newest me src) ≡ some m')
          × Wrote me.cap (shm.hdr.tail % me.cap) (newest me src) shm.payload m'
      copied =
          copy_in_lem me shm.payload (shm.hdr.tail % me.cap) (newest me src) start-lt
            (length-newest me src) v.fits

      shm' : Shm
      shm' = record {
        hdr = record shm.hdr {
          tail = wrapping_add shm.hdr.tail (length (newest me src));
          seq = wrapping_add shm.hdr.seq 2;
        };
        payload = copied.0;
      }

      w' : Wrote me.cap (length stream % me.cap) (newest me src) shm.payload copied.0
      w' = rw (← h.count) copied.2

  -- On a valid ring that holds a stream, a push under which the stream stays shorter than 2^64
  -- bytes never faults: the newest bytes of the source are appended to the stream, in the ring
  -- alone, and the header keeps all but `tail` and `seq`.
  pub push_overwrite-Pushed : (shm' : Shm) × Pushed me shm stream src shm'
  push_overwrite-Pushed = elim (ℕ_discrete (length (newest me src)) 0) [
    | yes e ↦ (shm, Pushed-nothing e)
    | no ne ↦ Pushed-some ne
  ]

-- A push keeps the handle valid.
pub Pushed-IsValid :
    {me : ShmAudioBuffer} {shm shm' : Shm} {stream src : List ℕ}
    → IsValid me shm
    → Pushed me shm stream src shm'
    → IsValid me shm'
Pushed-IsValid v p = record {
  log_cap = v.log_cap;
  cap_pow = v.cap_pow;
  fits = rw p.same_size v.fits;
}
