-- ===== src/Session/Forward.antt =====
-- The host's forwarding loop (packages/lalah-host/src/video.rs) and the frames that the guest pushes
-- meanwhile (packages/shared/src/lib.rs).
use lalah.Base.{
  ℕ, ◌+◌, ◌-◌, ◌<◌, ◌≡◌, refl, subst, ap, ap₂, ◌∙◌, Option, none, some, List, [], ◌∷◌, ◌++◌, arith,
  ltb, ◌||◌, length, get_or, take_all, drop_all, length-append, eq→==, ne→==, u64_mod,
}
use mathlib.Core.List.{append-nil, append_assoc}
use mathlib.Core.Option.{some-injective}
use native.Mathlib.Decide.{ℕ_discrete}
use lalah.Memory.WriteFrame.{frame_of}
use lalah.Video.Ring.{VideoShm, ShmVideoBuffer, read_frame, frame_count}
use lalah.Video.Ring.Read.{read_frame_newest}
use lalah.Host.Forward.{
  WriteOutcome, wrote, reader_gone, write_frame, Forwarder, Moment, settle, hand_over, poll_once,
  round_at, round, Handed, handed_in, run_loop,
}
use lalah.Session.Frames.{frames_of, length-frames_of}
use lalah.Session.Watched.{
  Watched, nothing, watch, Sized, ArePushed, ArePushed-append, ArePushed-both, pushed_to,
}

-- What a read into a buffer of the frame's size gives.
record ReadPushed (me : ShmVideoBuffer) (shm : VideoShm) (frames : List (List ℕ)) (out : List ℕ)
    : Type 0 where
  frame : List ℕ
  newest : Option ℕ
  returns : read_frame me shm out ≡ some (frame, newest)
  full : length frame ≡ me.frame_size
  is_pushed : (n : ℕ) → newest ≡ some n → (n < length frames) × (frame ≡ get_or frames n [])

read_pushed :
    {me : ShmVideoBuffer} {shm : VideoShm} {frames : List (List ℕ)}
    → Sized me shm frames
    → (out : List ℕ) → length out ≡ me.frame_size
    → ReadPushed me shm frames out
read_pushed {me} {shm} {frames} s out full = elim (ℕ_discrete (length frames) 0) [
  | yes e ↦ record {
    frame = out;
    newest = none;
    returns = read_frame_newest s.cut s.holds out ∙ rw (eq→== (length frames) 0 e) refl;
    full = full;
    is_pushed = λ n e'. absurd (ground arith);
  }
  | no ne ↦
      let last : List ℕ = get_or frames (length frames - 1) [] in
      let sized : length last ≡ me.frame_size = s.sized (length frames - 1) (omega (arith, ne)) in
      record {
        frame = last;
        newest = some (length frames - 1);
        returns =
            read_frame_newest s.cut s.holds out
            ∙ rw (ne→== (length frames) 0 ne) (
                ap (λ (x : List ℕ). some (x, some (length frames - 1)))
                  (ap₂ (λ (a b : List ℕ). a ++ b)
                      (take_all (length out) last (omega (arith, sized, full)))
                      (drop_all me.frame_size out (omega (arith, full)))
                    ∙ append-nil last));
        full = sized;
        is_pushed = λ n e.
            let at : length frames - 1 ≡ n = some-injective (length frames - 1) n e in
            (omega (arith, at, ne), ap (λ k. get_or frames k []) at);
      }
]

settle_frame : (st : Forwarder) (o : WriteOutcome) → (settle st o).frame ≡ st.frame
settle_frame st wrote = refl
settle_frame st WriteOutcome.dropped = refl
settle_frame st reader_gone = refl

-- What a round leaves: a buffer of the frame's size, and pushed frames handed over.
record Good (me : ShmVideoBuffer) (frames : List (List ℕ))
    (r : Forwarder × Option (ℕ × WriteOutcome)) : Type 0 where
  full : length r.0.frame ≡ me.frame_size
  are_pushed : ArePushed frames (handed_in r)

hand_over-Good :
    {me : ShmVideoBuffer} {frames : List (List ℕ)} (st : Forwarder) (m : Moment) (count : ℕ)
    (got : List ℕ) (o : Option ℕ)
    → length got ≡ me.frame_size
    → ((n : ℕ) → o ≡ some n → (n < length frames) × (got ≡ get_or frames n []))
    → Good me frames (hand_over st m count (got, o))
hand_over-Good st m count got none full is = record { full = full; are_pushed = tt }
hand_over-Good st m count got (some n) full is =
    let after : Forwarder = record st { frame = got; last_count = frame_count m.after_read } in
    let same = settle_frame after (write_frame m.answers got).0 in
    record {
      full = ap length same ∙ full;
      are_pushed = (((is n refl).0, same ∙ (is n refl).1), tt);
    }

module _ {me : ShmVideoBuffer} {frames : List (List ℕ)} where
  poll_once-Good :
      (st : Forwarder) (m : Moment)
      → Sized me m.at_read frames
      → length st.frame ≡ me.frame_size
      → (r : Forwarder × Option (ℕ × WriteOutcome)) × (poll_once me st m ≡ some r)
        × Good me frames r
  poll_once-Good st m s full = elim (ℕ_discrete (frame_count m.at_poll) st.last_count) [
    | yes same ↦ (
      (st, none),
      rw (eq→== (frame_count m.at_poll) st.last_count same) refl,
      record { full = full; are_pushed = tt },
    )
    | no new ↦
        let p = read_pushed s st.frame full in
        (
          hand_over st m (frame_count m.at_poll) (p.frame, p.newest),
          rw (ne→== (frame_count m.at_poll) st.last_count new, p.returns) refl,
          hand_over-Good st m (frame_count m.at_poll) p.frame p.newest p.full p.is_pushed,
        )
  ]

  round-Good :
      (st : Forwarder) (m : Moment)
      → Sized me m.at_read frames
      → length st.frame ≡ me.frame_size
      → (r : Forwarder × Option (ℕ × WriteOutcome)) × (round me st m ≡ some r) × Good me frames r
  unfolding round
  round-Good st m s full = go st.fd m.reader
    where
      go :
          (fd : Option ℕ) (reader : Option (ℕ × ℕ))
          → (r : Forwarder × Option (ℕ × WriteOutcome)) × (round_at me st
                (record m { reader = reader })
                fd
              ≡ some r)
            × Good me frames r
      go none none = (
        (record st { last_count = frame_count m.at_poll }, none),
        refl,
        record { full = full; are_pushed = tt },
      )
      go none (some opened) =
          poll_once-Good
            (record st {
              fd = some opened.0;
              warned_small_pipe = st.warned_small_pipe || ltb opened.1 me.frame_size;
            })
            (record m { reader = some opened }) s full
      go (some fd) reader = poll_once-Good st (record m { reader = reader }) s full

pub frames_of-append :
    (me : ShmVideoBuffer) (a b : List (List ℕ))
    → frames_of me (a ++ b) ≡ frames_of me a ++ frames_of me b
frames_of-append me [] b = refl
frames_of-append me (src ∷ a) b = ap (λ t. frame_of src me.frame_size ∷ t) (frames_of-append me a b)

-- The frames pushed by the end of a round, and behind it.
round_frames :
    (me : ShmVideoBuffer) (frames a b c later : List (List ℕ))
    → (((frames ++ frames_of me a) ++ frames_of me b) ++ frames_of me c) ++ frames_of me later
      ≡ frames ++ frames_of me (a ++ b ++ c ++ later)
round_frames me frames a b c later = simp (frames_of-append, append_assoc)

-- What the loop hands over while the guest pushes.
pub run_loop-ArePushed :
    {me : ShmVideoBuffer} {shm : VideoShm} {ms : List Moment} {srcs : List (List ℕ)}
    (frames : List (List ℕ)) (st : Forwarder)
    → Watched me shm ms srcs
    → Sized me shm frames
    → length st.frame ≡ me.frame_size
    → length frames + length srcs < u64_mod
    → (hs : List Handed) × (run_loop me st ms ≡ some hs)
      × ArePushed (frames ++ frames_of me srcs) hs
unfolding run_loop
run_loop-ArePushed frames st nothing s full room = ([], refl, tt)
run_loop-ArePushed {me} frames st (watch {m} {later} a b c ba bb bc ea eb ec w) s full room =
    let total : length (a ++ b ++ c ++ later) ≡ length a + length b + length c + length later =
      omega
        (arith, length-append (a ++ b ++ c) later, length-append (a ++ b) c, length-append a b) in
    let at_poll = frames ++ frames_of me a in
    let at_read = at_poll ++ frames_of me b in
    let after = at_read ++ frames_of me c in
    let n1 : length at_poll ≡ length frames + length a =
      length-append frames (frames_of me a) ∙ ap (λ n. length frames + n) (length-frames_of me a) in
    let n2 : length at_read ≡ length at_poll + length b =
      length-append at_poll (frames_of me b)
      ∙ ap (λ n. length at_poll + n) (length-frames_of me b) in
    let n3 : length after ≡ length at_read + length c =
      length-append at_read (frames_of me c)
      ∙ ap (λ n. length at_read + n) (length-frames_of me c) in
    let s1 = pushed_to a s ba (omega (arith, room, total)) ea in
    let s2 = pushed_to b s1 bb (omega (arith, room, total, n1)) eb in
    let s3 = pushed_to c s2 bc (omega (arith, room, total, n1, n2)) ec in
    let (r, e, good) = round-Good st m s2 full in
    let (hs, e', ps) =
      run_loop-ArePushed after r.0 w s3 good.full (omega (arith, room, total, n1, n2, n3)) in
    (
      handed_in r ++ hs,
      rw (e, e') refl,
      subst (λ all. ArePushed all (handed_in r ++ hs)) (round_frames me frames a b c later)
          (ArePushed-both (after ++ frames_of me later) (handed_in r) hs
            (ArePushed-append after (frames_of me later) (handed_in r)
              (ArePushed-append at_read (frames_of me c) (handed_in r) good.are_pushed))
            ps),
    )
