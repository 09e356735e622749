-- ===== src/Session/Playback.antt =====
-- The playback callback (packages/lalah-host/src/playback.rs) cycle after cycle, with the guest's pushes
-- (packages/shared/src/lib.rs) in between.
use lalah.Base.{
  ℕ, ◌+◌, ◌-◌, ◌*◌, ◌/◌, ◌%◌, ◌≤◌, ◌<◌, ◌≡◌, inl, refl, sym, subst, ap, ◌∙◌, Option, none, some,
  List, [], ◌∷◌, ◌++◌, arith, ◌>>=◌, length, length-append, replicate, u64_mod,
}
use mathlib.Core.List.{append_assoc}
use lalah.Audio.Header.{ShmHeader}
use lalah.Audio.Ring.{Shm, ShmAudioBuffer, Plan, newest, push_overwrite}
use lalah.Audio.Ring.Stream.{IsValid, Holds}
use lalah.Audio.Ring.Push.{pushed_header, Pushed, push_overwrite-Pushed, Pushed-IsValid}
use lalah.Audio.Ring.Window.{plan-head, plan_bounds}
use lalah.Audio.Ring.Read.{slice}
use lalah.Audio.Race.Reads.{slice-append}
use lalah.Host.Playback.{PlaybackState, Cycle, spinning, returned, process}
use lalah.Host.Playback.Latency.{IsPlaying, window, plan_of, state_after, shm_after, process_fills}

-- What happens to the ring: a push, or a cycle of the callback with a slice of that length.
pub data Event : Type 0 where
  pushed : (src : List ℕ) → Event
  cycle : (slice_len : ℕ) → Event

-- What a cycle has played: the window it filled, and where the ring's `head` stands behind it.
pub record Piece : Type 0 where
  pub filled : List ℕ
  pub upto : ℕ

abbrev pub and_then : Cycle → (PlaybackState → Shm → Option (List Piece)) → Option (List Piece)
and_then spinning next = none
and_then (returned st shm filled size) next =
    next st shm >>= λ rest. some (record { filled = filled; upto = shm.hdr.head } ∷ rest)

-- The events in their order; `none` if one faults, or if a cycle does not return in its first round.
unfoldable pub play : PlaybackState → Shm → List Event → Option (List Piece)
play st shm [] = some []
play st shm (pushed src ∷ es) = push_overwrite st.ring shm src >>= λ shm'. play st shm' es
play st shm (cycle slice_len ∷ es) =
    process 1 st shm (some slice_len) >>= λ c. and_then c (λ st' shm'. play st' shm' es)

-- The bytes that the pushes publish.
abbrev pub published : ShmAudioBuffer → List Event → List ℕ
published me [] = []
published me (pushed src ∷ es) = newest me src ++ published me es
published me (cycle slice_len ∷ es) = published me es

-- Every window and the latency budget fit the ring together.
abbrev pub AllFit : (stride latency cap : ℕ) → List Event → Type 0
AllFit stride latency cap [] = Unit {0}
AllFit stride latency cap (pushed src ∷ es) = AllFit stride latency cap es
AllFit stride latency cap (cycle slice_len ∷ es) =
    (slice_len / stride * stride + latency ≤ cap) × AllFit stride latency cap es

-- A piece is a slice of the stream that starts at `lo` or later and ends at `upto`, and silence after it.
pub record IsNext (lo : ℕ) (stream : List ℕ) (p : Piece) : Type 0 where
  pub start : ℕ
  pub count : ℕ
  pub silence : ℕ
  pub onward : lo ≤ start
  pub ends : start + count ≡ p.upto
  pub there : p.upto ≤ length stream
  pub sounds : p.filled ≡ slice stream start count ++ replicate silence 0

abbrev pub AreNext : ℕ → List ℕ → List Piece → Type 0
AreNext lo stream [] = Unit {0}
AreNext lo stream (p ∷ ps) = IsNext lo stream p × AreNext p.upto stream ps

-- A ring that the callback plays.
pub record IsPlayed (st : PlaybackState) (shm : Shm) (stream : List ℕ) : Type 0 where
  pub valid : IsValid st.ring shm
  pub holds : Holds st.ring shm stream
  pub even : shm.hdr.seq % 2 ≡ 0
  pub word : st.ring.cap < u64_mod
  pub some_frame : 0 < st.stride
  pub same_frame : st.stride ≡ shm.hdr.frame_bytes
  pub behind : shm.hdr.head ≤ shm.hdr.tail

pushed_header_lem :
    (h : ShmHeader) (n : ℕ)
    → h.tail + n < u64_mod
    → h.seq % 2 ≡ 0
    → ((pushed_header h n).head ≡ h.head)
      × ((pushed_header h n).frame_bytes ≡ h.frame_bytes)
      × ((pushed_header h n).seq % 2 ≡ 0)
      × (h.tail ≤ (pushed_header h n).tail)
pushed_header_lem h n room even = (ground arith, ground arith, ground arith, ground arith)

-- A push leaves a ring that is played.
pub Pushed-IsPlayed :
    {st : PlaybackState} {shm shm' : Shm} {stream src : List ℕ}
    → IsPlayed st shm stream
    → length stream + length (newest st.ring src) < u64_mod
    → Pushed st.ring shm stream src shm'
    → IsPlayed st shm' (stream ++ newest st.ring src) × (shm'.hdr.head ≡ shm.hdr.head)
Pushed-IsPlayed {st} {shm} {shm'} {stream} {src} k room p =
    let (same_head, same_bytes, even, onward) =
      pushed_header_lem shm.hdr (length (newest st.ring src)) (omega (arith, room, k.holds.count))
        k.even in
    let head = ap (λ (h : ShmHeader). h.head) p.header ∙ same_head in
    (
      record {
        valid = Pushed-IsValid k.valid p;
        holds = p.holds;
        even = ap (λ (h : ShmHeader). h.seq % 2) p.header ∙ even;
        word = k.word;
        some_frame = k.some_frame;
        same_frame =
            k.same_frame ∙ sym (ap (λ (h : ShmHeader). h.frame_bytes) p.header ∙ same_bytes);
        behind = omega (arith, head, k.behind, onward, ap (λ (h : ShmHeader). h.tail) p.header);
      },
      head,
    )

-- What a cycle plays, and that it leaves a ring that is played.
module _ {st : PlaybackState} {shm : Shm} {stream : List ℕ} (k : IsPlayed st shm stream)
    (slice_len : ℕ)
    (fits : slice_len / st.stride * st.stride + st.max_latency_bytes ≤ st.ring.cap) where
  abbrev p : Plan
  p = plan_of st shm slice_len

  is_playing : IsPlaying st shm slice_len
  is_playing = record {
    some_frame = k.some_frame;
    same_frame = k.same_frame;
    word = omega (arith, fits, k.word);
  }

  abbrev filled : List ℕ
  filled = slice stream p.head p.want ++ replicate (window st slice_len - p.want) 0

  pub cycle_returns :
      process 1 st shm (some slice_len)
      ≡ some (
          returned
            (state_after st shm slice_len)
            (shm_after st shm slice_len)
            filled
            (window st slice_len))
  cycle_returns = process_fills is_playing k.valid k.holds k.even (inl fits) 0

  pub inside : (shm.hdr.head ≤ p.head) × (p.head + p.want ≤ shm.hdr.tail)
  inside =
      let allowed : ℕ = window st slice_len + st.max_latency_bytes in
      let (a, b, c) =
        plan-head shm.hdr.frame_bytes (window st slice_len) allowed shm.hdr.tail shm.hdr.head in
      let (d, e, f) =
        plan_bounds shm.hdr.frame_bytes (window st slice_len) allowed shm.hdr.tail shm.hdr.head in
      (omega (arith, c, k.behind), f)

  pub cycle-IsPlayed : IsPlayed (state_after st shm slice_len) (shm_after st shm slice_len) stream
  cycle-IsPlayed = record {
    valid = record { log_cap = k.valid.log_cap; cap_pow = k.valid.cap_pow; fits = k.valid.fits };
    holds = record { count = k.holds.count; small = k.holds.small; kept = k.holds.kept };
    even = k.even;
    word = k.word;
    some_frame = k.some_frame;
    same_frame = k.same_frame;
    behind = omega (arith, inside);
  }

  pub cycle-IsNext :
      (new : List ℕ)
      → IsNext shm.hdr.head (stream ++ new) (record { filled = filled; upto = p.head + p.want })
  cycle-IsNext new = record {
    start = p.head;
    count = p.want;
    silence = window st slice_len - p.want;
    onward = inside.0;
    ends = refl;
    there = omega (arith, inside, k.holds.count, length-append stream new);
    sounds =
        ap (λ (s : List ℕ). s ++ replicate (window st slice_len - p.want) 0)
          (sym (slice-append stream new p.head p.want (omega (arith, inside, k.holds.count))));
  }

-- On a ring that is played, whose windows fit it together with the budget, and while the stream stays
-- shorter than 2^64 bytes: the events go through, and the pieces are the next ones of the stream.
pub play_lem :
    (es : List Event) (st : PlaybackState) (shm : Shm) (stream : List ℕ)
    → IsPlayed st shm stream
    → AllFit st.stride st.max_latency_bytes st.ring.cap es
    → length stream + length (published st.ring es) < u64_mod
    → (ps : List Piece) × (play st shm es ≡ some ps)
      × AreNext shm.hdr.head (stream ++ published st.ring es) ps
unfolding play
play_lem [] st shm stream k fits room = ([], refl, tt)
play_lem (pushed src ∷ es) st shm stream k fits room =
    let n = length-append (newest st.ring src) (published st.ring es) in
    let (shm', p) = push_overwrite-Pushed k.valid k.holds src (omega (arith, room, n)) in
    let (k', same_head) = Pushed-IsPlayed k (omega (arith, room, n)) p in
    let (ps, e, next) =
      play_lem es st shm' (stream ++ newest st.ring src) k' fits
        (omega (arith, room, n, length-append stream (newest st.ring src))) in
    (
      ps,
      rw p.returns e,
      subst (λ h. AreNext h (stream ++ (newest st.ring src ++ published st.ring es)) ps) same_head
          (subst (λ all. AreNext shm'.hdr.head all ps)
            (append_assoc stream (newest st.ring src) (published st.ring es)) next),
    )
play_lem (cycle slice_len ∷ es) st shm stream k (fits, more) room =
    let (ps, e, next) =
      play_lem es (state_after st shm slice_len) (shm_after st shm slice_len) stream
        (cycle-IsPlayed k slice_len fits) more room in
    (
      _ ∷ ps,
      rw (cycle_returns k slice_len fits, e) refl,
      (cycle-IsNext k slice_len fits (published st.ring es), next),
    )
