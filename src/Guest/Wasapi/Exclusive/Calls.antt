-- ===== src/Guest/Wasapi/Exclusive/Calls.antt =====
-- The ends of `capture_exclusive`.
use lalah.Base.{
  ℕ, ◌%◌, max, ◌<◌, ◌≡◌, ◌⊎◌, inl, inr, refl, sym, subst, ◌∙◌, Bool, true, false, Option, none,
  some, List, [], ◌∷◌, arith, Bool-cases, length, u64_mod,
}
use native.Mathlib.Nat.{zero-mod}
use mathlib.Core.Option.{some-injective, none-ne-some}
use lalah.Base.Checks.{check_lem, check_value_lem}
use lalah.Audio.Header.{AudioFormat}
use lalah.Audio.Ring.{Shm, ShmAudioBuffer, set_format}
use lalah.Audio.Ring.Stream.{IsValid, Holds}
use lalah.Guest.Wasapi.{
  WaveFormat, make_wfx, candidate, parse_audio_format, base_formats, probe, negotiate, Wake, Stop,
  clean, failed, waiting,
}
use lalah.Guest.Wasapi.Capture.{IsCapturing, captured_all, stop_of, capture_loop-IsCapturing}
use lalah.Guest.Wasapi.Words.{IsSame, capture_loop-IsSame}
use lalah.Guest.Wasapi.Exclusive.{
  EndpointCalls, refused, stopped, Session, fails, fails_open, initialize_client, teardown, stream,
  open_stream, open_probed, capture_exclusive,
}

-- A frame of a base format is 2, 4 or 8 bytes.
abbrev pub IsSmall : ℕ → Type 0
IsSmall n = (n ≡ 2) ⊎ ((n ≡ 4) ⊎ (n ≡ 8))

abbrev AreSmall : List (ℕ × ℕ × ℕ × Bool) → Type 0
AreSmall [] = Unit {0}
AreSmall (b ∷ bs) =
    ((extensible : Bool) → IsSmall (make_wfx (candidate b extensible)).block_align) × AreSmall bs

base_formats-AreSmall : AreSmall base_formats
unfolding make_wfx
base_formats-AreSmall = (
  λ _. inr (inl refl),
  (λ _. inr (inl refl), (λ _. inl refl, (λ _. inr (inr refl), (λ _. inr (inr refl), tt)))),
)

probe-IsSmall :
    (supported : WaveFormat → Bool) (bs : List (ℕ × ℕ × ℕ × Bool)) (w : WaveFormat)
    → AreSmall bs
    → probe supported bs ≡ some w
    → IsSmall w.block_align
unfolding probe
probe-IsSmall supported [] w h e = absurd (none-ne-some w e)
probe-IsSmall supported (b ∷ bs) w h e =
    elim (Bool-cases (supported (make_wfx (candidate b false)))) [
      | inl t ↦
          subst (λ (x : WaveFormat). IsSmall x.block_align)
            (some-injective (make_wfx (candidate b false)) w (sym (rw t refl) ∙ e)) (h.0 false)
      | inr f ↦ elim (Bool-cases (supported (make_wfx (candidate b true)))) [
        | inl t ↦
            subst (λ (x : WaveFormat). IsSmall x.block_align)
              (some-injective (make_wfx (candidate b true)) w (sym (rw (f, t) refl) ∙ e)) (h.0 true)
        | inr g ↦ probe-IsSmall supported bs w h.1 (sym (rw (f, g) refl) ∙ e)
      ]
    ]

parse-block_align :
    (w : WaveFormat) (fmt : AudioFormat)
    → parse_audio_format w ≡ some fmt
    → fmt.frame_bytes ≡ w.block_align
unfolding parse_audio_format
parse-block_align w fmt e = ground arith

-- The region as `attach` finds it: nothing is pushed, nothing is read, and the ring holds whole frames
-- of every base format.
pub record IsFresh (me : ShmAudioBuffer) (shm : Shm) : Type 0 where
  pub valid : IsValid me shm
  pub holds : Holds me shm []
  pub at_start : shm.hdr.head ≡ 0
  pub even : shm.hdr.seq % 2 ≡ 0
  pub whole : me.cap % 8 ≡ 0

whole_frames : (cap n : ℕ) → cap % 8 ≡ 0 → IsSmall n → (cap % n ≡ 0) × (0 < n)
whole_frames cap n h (inl e) = rw e (omega (arith, h))
whole_frames cap n h (inr (inl e)) = rw e (omega (arith, h))
whole_frames cap n h (inr (inr e)) = rw e (omega (arith, h))

IsCapturing-start :
    {me : ShmAudioBuffer} {shm : Shm} (fmt : AudioFormat)
    → IsFresh me shm
    → IsSmall fmt.frame_bytes
    → IsCapturing me fmt.frame_bytes (set_format shm fmt) []
unfolding set_format
IsCapturing-start {me} {shm} fmt f small = record {
  valid = record { log_cap = f.valid.log_cap; cap_pow = f.valid.cap_pow; fits = f.valid.fits };
  holds = record { count = f.holds.count; small = f.holds.small; kept = f.holds.kept };
  aligned = record {
    tail_at = rw f.holds.count (zero-mod (max fmt.frame_bytes 1));
    head_at = rw f.at_start (zero-mod (max fmt.frame_bytes 1));
  };
  same_frame = omega (arith, whole_frames me.cap fmt.frame_bytes f.whole small);
  whole = (whole_frames me.cap fmt.frame_bytes f.whole small).0;
}

-- How `capture_exclusive` ends: with an error before the format is published, with one behind that, or
-- as the loop ends.
pub data Ends (c : EndpointCalls) (me : ShmAudioBuffer) (shm : Shm) (ws : List Wake) (r : Session)
    : Type 0 where
  unpublished : (hresult : ℕ) → r.exit ≡ refused hresult → r.shm ≡ shm → Ends c me shm ws r
  published :
      (fmt : AudioFormat) (hresult : ℕ)
      → negotiate c.supported ≡ some fmt
      → c.start ≡ some hresult
      → r.exit ≡ refused hresult
      → r.shm ≡ set_format shm fmt
      → r.event_open ≡ true
      → Ends c me shm ws r
  captured :
      (fmt : AudioFormat)
      → negotiate c.supported ≡ some fmt
      → r.exit ≡ stopped (stop_of ws)
      → IsCapturing me fmt.frame_bytes r.shm (captured_all me fmt.frame_bytes ws)
      → IsSame (set_format shm fmt) r.shm
      → 0 < fmt.frame_bytes
      → r.event_open ≡ r.streaming
      → Ends c me shm ws r

teardown_lem :
    (shm : Shm) (s : Stop)
    → ((teardown (shm, s)).shm ≡ shm)
      × ((teardown (shm, s)).exit ≡ stopped s)
      × ((teardown (shm, s)).event_open ≡ (teardown (shm, s)).streaming)
teardown_lem shm waiting = (refl, refl, refl)
teardown_lem shm clean = (refl, refl, refl)
teardown_lem shm (failed e) = (refl, refl, refl)

module _ (c : EndpointCalls) {me : ShmAudioBuffer} {shm : Shm} (ws : List Wake)
    (f : IsFresh me shm) where
  abbrev EndsWith : Option Session → Type 0
  EndsWith o = (r : Session) × (o ≡ some r) × Ends c me shm ws r

  fails_lem : (e : ℕ) → EndsWith (fails shm e)
  fails_lem e = (_, refl, unpublished e refl refl)

  fails_open_lem : (e : ℕ) → EndsWith (fails_open shm e)
  fails_open_lem e = (_, refl, unpublished e refl refl)

  stream_lem :
      (fmt : AudioFormat)
      → negotiate c.supported ≡ some fmt
      → IsSmall fmt.frame_bytes
      → length (captured_all me fmt.frame_bytes ws) < u64_mod
      → EndsWith (stream c me shm fmt ws)
  stream_lem fmt n small room =
      check_lem EndsWith c.start (fails_open (set_format shm fmt)) _
        (λ e s. (_, refl, published fmt e n s refl refl refl))
        (let (shm', e, k) =
            capture_loop-IsCapturing ws (IsCapturing-start fmt f small) (omega (arith, room)) in
          let (t, x, o) = teardown_lem shm' (stop_of ws) in
          (
            teardown (shm', stop_of ws),
            rw e refl,
            captured fmt n x
                (subst (λ z. IsCapturing me fmt.frame_bytes z (captured_all me fmt.frame_bytes ws))
                  (sym t) k)
                (subst (IsSame (set_format shm fmt)) (sym t) (
                  capture_loop-IsSame me fmt.frame_bytes (set_format shm fmt) shm' ws (stop_of ws)
                    e))
                (whole_frames me.cap fmt.frame_bytes f.whole small).1 o,
          ))

  module _
      (room : (fmt : AudioFormat)
        → negotiate c.supported ≡ some fmt
        → length (captured_all me fmt.frame_bytes ws) < u64_mod) where
    open_stream_lem :
        (min_period : ℕ) (w : WaveFormat) (q : Option AudioFormat)
        → probe c.supported base_formats ≡ some w
        → parse_audio_format w ≡ q
        → EndsWith (open_stream c me shm ws min_period w q)
    unfolding negotiate
    open_stream_lem min_period w none e e' = fails_lem c.unsupported_format
    open_stream_lem min_period w (some fmt) e e' =
        let n : negotiate c.supported ≡ some fmt = rw e e' in
        let small : IsSmall fmt.frame_bytes =
          subst IsSmall (sym (parse-block_align w fmt e'))
            (probe-IsSmall c.supported base_formats w base_formats-AreSmall e) in
        check_lem EndsWith (initialize_client c w fmt.sample_rate min_period) (fails shm) _
          (λ h _. fails_lem h)
          (check_lem EndsWith c.create_event (fails shm) _ (λ h _. fails_lem h)
            (check_lem EndsWith c.set_event_handle (fails_open shm) _ (λ h _. fails_open_lem h)
              (check_lem EndsWith c.get_buffer_size (fails_open shm) _ (λ h _. fails_open_lem h)
                (check_lem EndsWith c.get_service (fails_open shm) _ (λ h _. fails_open_lem h)
                  (stream_lem fmt n small (room fmt n))))))

    open_probed_lem :
        (min_period : ℕ) (o : Option WaveFormat)
        → probe c.supported base_formats ≡ o
        → EndsWith (open_probed c me shm ws min_period o)
    open_probed_lem min_period none e = fails_lem c.unsupported_format
    open_probed_lem min_period (some w) e =
        open_stream_lem min_period w (parse_audio_format w) e refl

    -- Over a fresh, valid ring of whole groups of 8 bytes, and with a captured stream, which has
    -- of each packet the newest bytes that the ring can hold, shorter than 2^64 bytes in
    -- whichever format is negotiated, `capture_exclusive` never faults, whatever the endpoint
    -- answers. An error before the format is published leaves the region as it was. An error
    -- behind that comes from `Start`, and leaves the negotiated format published and the event
    -- handle open. Otherwise the call ends as the loop does, the ring holds the captured stream,
    -- the header's format is the negotiated one, and the event handle is open only while the
    -- stream runs.
    pub capture_exclusive-Ends :
        (r : Session) × (capture_exclusive c me shm ws ≡ some r) × Ends c me shm ws r
    unfolding capture_exclusive
    capture_exclusive-Ends =
        check_lem EndsWith c.co_initialize (fails shm) _ (λ h _. fails_lem h)
          (check_lem EndsWith c.create_enumerator (fails shm) _ (λ h _. fails_lem h)
            (check_lem EndsWith c.get_device (fails shm) _ (λ h _. fails_lem h)
              (check_lem EndsWith c.activate (fails shm) _ (λ h _. fails_lem h)
                (check_value_lem EndsWith c.get_device_period (fails shm) _ fails_lem (λ min_period.
                  open_probed_lem min_period (probe c.supported base_formats) refl)))))
