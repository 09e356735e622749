-- ===== src/Host/Forward/Frames.antt =====
-- The loop of `run_video` (lalah-host/src/video.rs): the numbers of the frames handed over.
use lalah.Base.{
  ℕ, suc, ◌≤◌, ◌<◌, ◌≡◌, ◌≢◌, refl, sym, ap, ◌∙◌, subst, inl, inr, ◌||◌, Option, none, some, List,
  [], ◌∷◌, ◌++◌, arith, ltb, Option-cases, ne→==, eq→==,
}
use mathlib.Core.Option.{some-injective, none-ne-some}
use native.Mathlib.Decide.{ℕ_discrete}
use lalah.Video.Ring.{VideoShm, ShmVideoBuffer, read_frame, frame_count}
use lalah.Video.Ring.Geometry.{IsCut}
use lalah.Video.Ring.Read.{read_frame_returns}
use lalah.Host.Forward.{
  WriteOutcome, wrote, reader_gone, write_frame, Forwarder, Moment, settle, hand_over, poll_once,
  round, round_at, begin, Handed, handed_in, run_loop,
}

-- The frame that a read accepts is the newest.
read_frame_number :
    (me : ShmVideoBuffer) (shm : VideoShm) (out got : List ℕ) (n : ℕ)
    → read_frame me shm out ≡ some (got, some n)
    → shm.hdr.frame_seq ≡ suc n
unfolding read_frame
read_frame_number me shm out got n e = ground arith

-- What a round moves: the count never goes back and never runs ahead of the region, and a frame that
-- is handed over is newer than the count before and older than the count after.
record Advanced (before after : ℕ) (r : Forwarder × Option (ℕ × WriteOutcome)) : Type 0 where
  onward : before ≤ r.0.last_count
  behind : r.0.last_count ≤ after
  handed : (n : ℕ) (o : WriteOutcome) → r.1 ≡ some (n, o) → (before ≤ n) × (n < r.0.last_count)

settle_count : (st : Forwarder) (o : WriteOutcome) → (settle st o).last_count ≡ st.last_count
settle_count st wrote = refl
settle_count st WriteOutcome.dropped = refl
settle_count st reader_gone = refl

hand_over-Advanced :
    (st : Forwarder) (m : Moment) (got : List ℕ) (o : Option ℕ)
    → (frame_count m.at_poll ≢ st.last_count)
    → ((n : ℕ) → o ≡ some n → frame_count m.at_read ≡ suc n)
    → st.last_count ≤ frame_count m.at_poll
    → frame_count m.at_poll ≤ frame_count m.at_read
    → frame_count m.at_read ≤ frame_count m.after_read
    → Advanced st.last_count
        (frame_count m.after_read)
        (hand_over st m (frame_count m.at_poll) (got, o))
hand_over-Advanced st m got none new is a b c = record {
  onward = a;
  behind = omega arith;
  handed = λ n o e. absurd (ground arith);
}
hand_over-Advanced st m got (some n) new is a b c = record {
  onward = omega (arith, kept);
  behind = omega (arith, kept);
  handed = λ n' o' e.
      let same : n ≡ n' = ap (λ (h : ℕ × WriteOutcome). h.0) (some-injective (n, o) (n', o') e) in
      omega (arith, kept, is n refl, new);
}
  where
    o : WriteOutcome
    o = (write_frame m.answers got).0

    kept :
        (settle (record st { frame = got; last_count = frame_count m.after_read }) o).last_count
        ≡ frame_count m.after_read
    kept = settle_count (record st { frame = got; last_count = frame_count m.after_read }) o

-- The region's count never goes back.
pub record IsMonotone (st : Forwarder) (m : Moment) : Type 0 where
  pub polled : st.last_count ≤ frame_count m.at_poll
  pub then_read : frame_count m.at_poll ≤ frame_count m.at_read
  pub and_after : frame_count m.at_read ≤ frame_count m.after_read

poll_once-Advanced :
    (me : ShmVideoBuffer) (st : Forwarder) (m : Moment) (r : Forwarder × Option (ℕ × WriteOutcome))
    → IsMonotone st m
    → poll_once me st m ≡ some r
    → Advanced st.last_count (frame_count m.after_read) r
unfolding frame_count
poll_once-Advanced me st m r mono e = elim (ℕ_discrete (frame_count m.at_poll) st.last_count) [
  | yes same ↦ take (st, none) (rw (eq→== (frame_count m.at_poll) st.last_count same) refl) still
  | no new ↦ elim (Option-cases (read_frame me m.at_read st.frame)) [
    | inl fault ↦ absurd (never (rw (ne→== (frame_count m.at_poll) st.last_count new, fault) refl))
    | inr (got, ok) ↦
        take (hand_over st m (frame_count m.at_poll) got)
          (rw (ne→== (frame_count m.at_poll) st.last_count new, ok) refl)
          (hand_over-Advanced st m got.0 got.1 new
            (λ n is.
              read_frame_number me m.at_read st.frame got.0 n (ok ∙ ap (λ k. some (got.0, k)) is))
            mono.polled mono.then_read mono.and_after)
  ]
]
  where
    take :
        (r' : Forwarder × Option (ℕ × WriteOutcome))
        → poll_once me st m ≡ some r'
        → Advanced st.last_count (frame_count m.after_read) r'
        → Advanced st.last_count (frame_count m.after_read) r
    take r' e' a =
        subst (Advanced st.last_count (frame_count m.after_read)) (some-injective r' r (sym e' ∙ e))
          a

    never : ¬ (poll_once me st m ≡ none)
    never n = none-ne-some r (sym n ∙ e)

    still : Advanced st.last_count (frame_count m.after_read) (st, none)
    still = record {
      onward = omega arith;
      behind = omega (arith, mono.polled, mono.then_read, mono.and_after);
      handed = λ n o e'. absurd (none-ne-some (n, o) e');
    }

round-Advanced :
    (me : ShmVideoBuffer) (st : Forwarder) (m : Moment) (r : Forwarder × Option (ℕ × WriteOutcome))
    → IsMonotone st m
    → round me st m ≡ some r
    → Advanced st.last_count (frame_count m.after_read) r
unfolding round
round-Advanced me st m r mono e = go st.fd m.reader e
  where
    go :
        (fd : Option ℕ) (reader : Option (ℕ × ℕ))
        → round_at me st (record m { reader = reader }) fd ≡ some r
        → Advanced st.last_count (frame_count m.after_read) r
    go none none e' =
        subst (Advanced st.last_count (frame_count m.after_read))
          (some-injective (record st { last_count = frame_count m.at_poll }, none) r e')
          (record {
            onward = mono.polled;
            behind = omega (arith, mono.then_read, mono.and_after);
            handed = λ n o e''. absurd (none-ne-some (n, o) e'');
          })
    go none (some opened) e' =
        poll_once-Advanced me
          (record st {
            fd = some opened.0;
            warned_small_pipe = st.warned_small_pipe || ltb opened.1 me.frame_size;
          })
          (record m { reader = some opened }) r
          (record { polled = mono.polled; then_read = mono.then_read; and_after = mono.and_after })
          e'
    go (some fd) reader e' =
        poll_once-Advanced me st (record m { reader = reader }) r
          (record { polled = mono.polled; then_read = mono.then_read; and_after = mono.and_after })
          e'

-- Moments in the order in which the loop meets them, over a count that never goes back from `lo`.
abbrev pub AreMonotone : ℕ → List Moment → Type 0
AreMonotone lo [] = Unit {0}
AreMonotone lo (m ∷ ms) =
    (lo ≤ frame_count m.at_poll)
    × (frame_count m.at_poll ≤ frame_count m.at_read)
    × (frame_count m.at_read ≤ frame_count m.after_read)
    × AreMonotone (frame_count m.after_read) ms

-- Every number is above the one before it, and the first is at least `lo`.
abbrev pub IsRising : ℕ → List Handed → Type 0
IsRising lo [] = Unit {0}
IsRising lo (h ∷ hs) = (lo ≤ h.number) × IsRising (suc h.number) hs

IsRising-from : (lo lo' : ℕ) (ns : List Handed) → lo ≤ lo' → IsRising lo' ns → IsRising lo ns
IsRising-from lo lo' [] le r = tt
IsRising-from lo lo' (n ∷ ns) le r = (omega (arith, r.0), r.1)

-- The handle's slots lie in the region at every read, so that no read faults.
abbrev pub AreCut : ShmVideoBuffer → List Moment → Type 0
AreCut me [] = Unit {0}
AreCut me (m ∷ ms) = IsCut me m.at_read × ((j : ℕ) → m.at_read.payload.cell j < 256) × AreCut me ms

poll_once_returns :
    (me : ShmVideoBuffer) (st : Forwarder) (m : Moment)
    → IsCut me m.at_read
    → ((j : ℕ) → m.at_read.payload.cell j < 256)
    → (r : Forwarder × Option (ℕ × WriteOutcome)) × (poll_once me st m ≡ some r)
poll_once_returns me st m c b =
    let (got, e) = read_frame_returns me m.at_read st.frame c b in
    elim (ℕ_discrete (frame_count m.at_poll) st.last_count) [
      | yes same ↦ ((st, none), rw (eq→== (frame_count m.at_poll) st.last_count same) refl)
      | no new ↦ (
        hand_over st m (frame_count m.at_poll) got,
        rw (ne→== (frame_count m.at_poll) st.last_count new, e) refl,
      )
    ]

round_returns :
    (me : ShmVideoBuffer) (st : Forwarder) (m : Moment)
    → IsCut me m.at_read
    → ((j : ℕ) → m.at_read.payload.cell j < 256)
    → (r : Forwarder × Option (ℕ × WriteOutcome)) × (round me st m ≡ some r)
unfolding round
round_returns me st m c b = go st.fd m.reader
  where
    go :
        (fd : Option ℕ) (reader : Option (ℕ × ℕ))
        → (r : Forwarder × Option (ℕ × WriteOutcome)) × (round_at me st
              (record m { reader = reader })
              fd
            ≡ some r)
    go none none = ((record st { last_count = frame_count m.at_poll }, none), refl)
    go none (some opened) =
        poll_once_returns me
          (record st {
            fd = some opened.0;
            warned_small_pipe = st.warned_small_pipe || ltb opened.1 me.frame_size;
          })
          (record m { reader = some opened }) c b
    go (some fd) reader = poll_once_returns me st (record m { reader = reader }) c b

IsRising-cons :
    (before after : ℕ) (r : Forwarder × Option (ℕ × WriteOutcome)) (ns : List Handed)
    → Advanced before after r
    → IsRising r.0.last_count ns
    → IsRising before (handed_in r ++ ns)
IsRising-cons before after (st, none) ns a rest =
    IsRising-from before st.last_count ns a.onward rest
IsRising-cons before after (st, some (n, o)) ns a rest =
    ((a.handed n o refl).0, IsRising-from (suc n) st.last_count ns (a.handed n o refl).1 rest)

-- The loop from any of its rounds on.
pub run_loop-IsRising_from :
    (me : ShmVideoBuffer) (st : Forwarder) (ms : List Moment) (lo : ℕ)
    → st.last_count ≤ lo
    → AreMonotone lo ms
    → AreCut me ms
    → (ns : List Handed) × (run_loop me st ms ≡ some ns) × IsRising st.last_count ns
unfolding run_loop
run_loop-IsRising_from me st [] lo low mono cut = ([], refl, tt)
run_loop-IsRising_from me st (m ∷ ms) lo low mono cut =
    let (r, e) = round_returns me st m cut.0 cut.1 in
    let a =
      round-Advanced me st m r
        (record { polled = omega (arith, mono.0); then_read = mono.1; and_after = mono.2 }) e in
    let (ns, e', rising) =
      run_loop-IsRising_from me r.0 ms (frame_count m.after_read) a.behind mono.3 cut.2 in
    (
      handed_in r ++ ns,
      rw (e, e') refl,
      IsRising-cons st.last_count (frame_count m.after_read) r ns a rising,
    )

-- The forwarding loop begins over a region with some frame count. While that count never goes
-- back, no frame is pushed during a read, and the handle's slots lie in a region of bytes at
-- every read, the loop never faults, and hands the frames over in the order in which they were
-- pushed, none twice, and none that was there before the loop began.
pub run_loop-IsRising :
    (me : ShmVideoBuffer) (at_start : VideoShm) (ms : List Moment)
    → AreMonotone (frame_count at_start) ms
    → AreCut me ms
    → (hs : List Handed) × (run_loop me (begin me at_start) ms ≡ some hs)
      × IsRising (frame_count at_start) hs
run_loop-IsRising me at_start ms mono cut =
    run_loop-IsRising_from me (begin me at_start) ms (frame_count at_start) (omega arith) mono cut
