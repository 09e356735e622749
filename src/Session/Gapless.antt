-- ===== src/Session/Gapless.antt =====
-- The playback callback while it keeps up with the pushes: what is heard is the stream that they make.
use lalah.Base.{
  ℕ, zero, suc, ◌+◌, ◌-◌, ◌*◌, ◌/◌, ◌≤◌, ◌<◌, ◌≡◌, refl, sym, subst, ap, ap₂, ◌∙◌, some, List, [],
  ◌∷◌, ◌++◌, arith, length, length-append, take, drop, take_all, drop_all, length-take, length-drop,
  replicate, min, u64_mod,
}
use mathlib.Core.List.{append_assoc}
use lalah.Audio.Ring.{Shm, ShmAudioBuffer, Plan, newest}
use lalah.Audio.Ring.Push.{push_overwrite-Pushed}
use lalah.Audio.Ring.Window.{unit, budget, plan-head_of_le, plan-want}
use lalah.Audio.Ring.Read.{slice}
use lalah.Audio.Race.Reads.{slice-append}
use lalah.Host.Playback.{PlaybackState}
use lalah.Host.Playback.Latency.{window, plan_of, state_after, shm_after}
use lalah.Session.Playback.{
  Event, pushed, cycle, Piece, play, published, AllFit, IsPlayed, Pushed-IsPlayed, cycle_returns,
  cycle-IsPlayed, inside,
}

-- No cycle meets more than its budget in whole frames: `backlog` bytes are there, and a cycle takes as many
-- whole frames as its window and the backlog both have.
abbrev pub KeepsUp : ShmAudioBuffer → (stride latency backlog : ℕ) → List Event → Type 0
KeepsUp me stride latency backlog [] = Unit {0}
KeepsUp me stride latency backlog (pushed src ∷ es) =
    KeepsUp me stride latency (backlog + length (newest me src)) es
KeepsUp me stride latency backlog (cycle slice_len ∷ es) =
    (backlog ≤ budget stride (slice_len / stride * stride + latency))
    × KeepsUp me stride latency
        (backlog - min (slice_len / stride * stride) backlog / unit stride * unit stride) es

-- The backlog that is left at the end.
abbrev pub left_over : ShmAudioBuffer → (stride backlog : ℕ) → List Event → ℕ
left_over me stride backlog [] = backlog
left_over me stride backlog (pushed src ∷ es) =
    left_over me stride (backlog + length (newest me src)) es
left_over me stride backlog (cycle slice_len ∷ es) =
    left_over me stride
      (backlog - min (slice_len / stride * stride) backlog / unit stride * unit stride) es

-- What the pieces play from `lo` on, without the silence.
abbrev pub heard : ℕ → List Piece → List ℕ
heard lo [] = []
heard lo (p ∷ ps) = take (p.upto - lo) p.filled ++ heard p.upto ps

take-add : (a b : ℕ) (xs : List ℕ) → take (a + b) xs ≡ take a xs ++ take b (drop a xs)
take-add zero b xs = ap (λ n. take n xs) (omega arith)
take-add (suc a) b [] = take_all (suc a + b) [] (omega arith) ∙ sym (take_all b [] (omega arith))
take-add (suc a) b (x ∷ xs) =
    let e : suc a + b ≡ suc (a + b) = omega arith in
    ap (λ n. take n (x ∷ xs)) e ∙ ap (λ t. x ∷ t) (take-add a b xs)

drop-drop : (h a : ℕ) (xs : List ℕ) → drop a (drop h xs) ≡ drop (h + a) xs
drop-drop zero a xs = ap (λ n. drop n xs) (omega arith)
drop-drop (suc h) a [] = drop_all a [] (omega arith) ∙ sym (drop_all (suc h + a) [] (omega arith))
drop-drop (suc h) a (x ∷ xs) =
    let e : suc h + a ≡ suc (h + a) = omega arith in
    drop-drop h a xs ∙ sym (ap (λ n. drop n (x ∷ xs)) e)

-- Two slices, one behind the other, are one.
slice-both : (xs : List ℕ) (h a b : ℕ) → slice xs h a ++ slice xs (h + a) b ≡ slice xs h (a + b)
slice-both xs h a b =
    ap (λ t. slice xs h a ++ take b t) (sym (drop-drop h a xs)) ∙ sym (take-add a b (drop h xs))

take-prefix : (n : ℕ) (xs ys : List ℕ) → length xs ≡ n → take n (xs ++ ys) ≡ xs
take-prefix zero [] ys e = refl
take-prefix zero (x ∷ xs) ys e = absurd (omega arith)
take-prefix (suc n) [] ys e = absurd (omega arith)
take-prefix (suc n) (x ∷ xs) ys e = ap (λ t. x ∷ t) (take-prefix n xs ys (omega arith))

module _ {st : PlaybackState} {shm : Shm} {stream : List ℕ} (k : IsPlayed st shm stream)
    (slice_len : ℕ)
    (within : shm.hdr.tail - shm.hdr.head
      ≤ budget st.stride (window st slice_len + st.max_latency_bytes)) where
  abbrev p : Plan
  p = plan_of st shm slice_len

  starts : p.head ≡ shm.hdr.head
  starts =
      plan-head_of_le shm.hdr.frame_bytes (window st slice_len)
        (window st slice_len + st.max_latency_bytes) shm.hdr.tail shm.hdr.head k.behind
        (subst
          (λ f. shm.hdr.tail - shm.hdr.head ≤ budget f (window st slice_len + st.max_latency_bytes))
          k.same_frame within)

  takes :
      p.want
      ≡ min (window st slice_len) (shm.hdr.tail - shm.hdr.head) / unit st.stride * unit st.stride
  takes =
      plan-want shm.hdr.frame_bytes (window st slice_len)
        (window st slice_len + st.max_latency_bytes) shm.hdr.tail shm.hdr.head
      ∙ ap₂ (λ f h. min (window st slice_len) (shm.hdr.tail - h) / unit f * unit f)
          (sym k.same_frame) starts

  -- The live part of the cycle's piece.
  live :
      (new : List ℕ)
      → slice_len / st.stride * st.stride + st.max_latency_bytes ≤ st.ring.cap
      → take
          (p.head + p.want - shm.hdr.head)
          (slice stream p.head p.want ++ replicate (window st slice_len - p.want) 0)
        ≡ slice (stream ++ new) shm.hdr.head p.want
  live new fits =
      let i = inside k slice_len fits in
      take-prefix (p.head + p.want - shm.hdr.head) (slice stream p.head p.want)
        (replicate (window st slice_len - p.want) 0)
        (omega (
          arith,
          length-take p.want (drop p.head stream),
          length-drop p.head stream,
          i,
          k.holds.count,
          starts,
        ))
      ∙ ap (λ h. slice stream h p.want) starts
      ∙ sym (slice-append stream new shm.hdr.head p.want (omega (arith, i, starts, k.holds.count)))

-- On a ring that is played, whose windows fit it together with the budget, while every cycle keeps up and
-- the stream stays shorter than 2^64 bytes: what is heard are the bytes of the stream from `head` on, all
-- but those that are left over.
pub gapless :
    (es : List Event) (st : PlaybackState) (shm : Shm) (stream : List ℕ)
    → IsPlayed st shm stream
    → AllFit st.stride st.max_latency_bytes st.ring.cap es
    → KeepsUp st.ring st.stride st.max_latency_bytes (shm.hdr.tail - shm.hdr.head) es
    → length stream + length (published st.ring es) < u64_mod
    → (ps : List Piece) × (n : ℕ) × (play st shm es ≡ some ps)
      × (heard shm.hdr.head ps ≡ slice (stream ++ published st.ring es) shm.hdr.head n)
      × (n + left_over st.ring st.stride (shm.hdr.tail - shm.hdr.head) es
          ≡ shm.hdr.tail - shm.hdr.head + length (published st.ring es))
unfolding play
gapless [] st shm stream k fits up room = ([], 0, refl, refl, omega arith)
gapless (pushed src ∷ es) st shm stream k fits up room =
    let n = length-append (newest st.ring src) (published st.ring es) in
    let (shm', p) = push_overwrite-Pushed k.valid k.holds src (omega (arith, room, n)) in
    let (k', same_head) = Pushed-IsPlayed k (omega (arith, room, n)) p in
    let total = length-append stream (newest st.ring src) in
    let backlog : shm'.hdr.tail - shm'.hdr.head
        ≡ shm.hdr.tail - shm.hdr.head + length (newest st.ring src) =
      omega (arith, same_head, k'.holds.count, k.holds.count, total, k.behind) in
    let (ps, m, e, heard_all, all_but) =
      gapless es st shm' (stream ++ newest st.ring src) k' fits
        (subst (λ b. KeepsUp st.ring st.stride st.max_latency_bytes b es) (sym backlog) up)
        (omega (arith, room, n, total)) in
    (
      ps,
      m,
      rw p.returns e,
      subst (λ h. heard h ps ≡ slice (stream ++ (newest st.ring src ++ published st.ring es)) h m)
          same_head
          (subst (λ all. heard shm'.hdr.head ps ≡ slice all shm'.hdr.head m)
            (append_assoc stream (newest st.ring src) (published st.ring es)) heard_all),
      omega (arith, all_but, backlog, n, ap (λ b. left_over st.ring st.stride b es) backlog),
    )
gapless (cycle slice_len ∷ es) st shm stream k (fits, more) (within, up) room =
    let p : Plan = plan_of st shm slice_len in
    let at = starts k slice_len within in
    let backlog : shm.hdr.tail - (p.head + p.want)
        ≡ shm.hdr.tail
          - shm.hdr.head
          - min (window st slice_len) (shm.hdr.tail - shm.hdr.head)
            / unit st.stride
            * unit st.stride =
      omega (arith, at, takes k slice_len within) in
    let (ps, m, e, heard_all, all_but) =
      gapless es (state_after st shm slice_len) (shm_after st shm slice_len) stream
        (cycle-IsPlayed k slice_len fits) more
        (subst (λ b. KeepsUp st.ring st.stride st.max_latency_bytes b es) (sym backlog) up) room in
    (
      _ ∷ ps,
      p.want + m,
      rw (cycle_returns k slice_len fits, e) refl,
      ap₂ (λ (a b : List ℕ). a ++ b) (live k slice_len within (published st.ring es) fits)
            (heard_all ∙ ap (λ h. slice (stream ++ published st.ring es) (h + p.want) m) at)
          ∙ slice-both (stream ++ published st.ring es) shm.hdr.head p.want m,
      omega (
        arith,
        all_but,
        backlog,
        at,
        inside k slice_len fits,
        ap (λ b. left_over st.ring st.stride b es) backlog,
      ),
    )
