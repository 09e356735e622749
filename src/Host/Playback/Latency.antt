-- ===== src/Host/Playback/Latency.antt =====
-- A cycle of the callback (playback.rs): the window, the backlog it leaves, and the counters.
use lalah.Base.{
  ℕ, suc, ◌+◌, ◌-◌, ◌*◌, ◌/◌, ◌%◌, ◌≤◌, ◌<◌, ◌≡◌, ◌⊎◌, inl, inr, refl, ap, ◌∙◌, some, arith, List,
  ◌++◌, replicate, ltb, min, u64_mod, ne→==,
}
use native.Mathlib.Nat.{lt-div-mul-add, div-mul-le_self, mul-div_cancel, mod-eq_of_lt}
use native.Mathlib.Decide.{dec_le}
use lalah.Audio.Ring.{Shm, Plan, plan, pointers}
use lalah.Audio.Ring.Stream.{IsValid, Holds}
use lalah.Audio.Ring.Window.{unit, budget, plan-head, plan-want}
use lalah.Audio.Ring.Read.{slice, read_quantum_returns}
use lalah.Host.Playback.{PlaybackState, returned, count_if, process}

-- The part of the slice that is filled, and the budget of the read.
abbrev pub window : PlaybackState → ℕ → ℕ
window st slice_len = slice_len / st.stride * st.stride

abbrev pub plan_of : PlaybackState → Shm → ℕ → Plan
plan_of st shm slice_len =
    plan shm.hdr.frame_bytes (window st slice_len) (window st slice_len + st.max_latency_bytes)
      shm.hdr.tail shm.hdr.head

-- The state and the region after a cycle.
abbrev pub state_after : PlaybackState → Shm → ℕ → PlaybackState
state_after st shm slice_len = record st {
  underflows = count_if (ltb (plan_of st shm slice_len).want (window st slice_len)) st.underflows;
  overflows =
      count_if (ltb (window st slice_len + st.max_latency_bytes) (shm.hdr.tail - shm.hdr.head))
        st.overflows;
}

abbrev pub shm_after : PlaybackState → Shm → ℕ → Shm
shm_after st shm slice_len =
    let p = plan_of st shm slice_len in
    record shm { hdr = record shm.hdr { head = p.head + p.want } }

-- A callback that plays a ring: the stride is the ring's frame, and the budget is a word.
pub record IsPlaying (st : PlaybackState) (shm : Shm) (slice_len : ℕ) : Type 0 where
  pub some_frame : 0 < st.stride
  pub same_frame : st.stride ≡ shm.hdr.frame_bytes
  pub word : window st slice_len + st.max_latency_bytes < u64_mod

module _ {st : PlaybackState} {shm : Shm} {slice_len : ℕ}
    (playing : IsPlaying st shm slice_len) where
  abbrev p : Plan
  p = plan_of st shm slice_len

  whole : window st slice_len / st.stride * st.stride ≡ window st slice_len
  whole = ap (λ t. t * st.stride) (mul-div_cancel (slice_len / st.stride) playing.some_frame)

  unit_stride : unit shm.hdr.frame_bytes ≡ st.stride
  unit_stride = omega (arith, playing.some_frame, playing.same_frame)

  abbrev allowed : ℕ
  allowed = window st slice_len + st.max_latency_bytes

  heads :
      (p.head ≤ shm.hdr.tail)
      × (shm.hdr.tail ≤ p.head + budget shm.hdr.frame_bytes allowed)
      × (min shm.hdr.head shm.hdr.tail ≤ p.head)
  heads = plan-head shm.hdr.frame_bytes (window st slice_len) allowed shm.hdr.tail shm.hdr.head

  want_min : p.want ≡ min (window st slice_len) (shm.hdr.tail - p.head) / st.stride * st.stride
  want_min =
      plan-want shm.hdr.frame_bytes (window st slice_len) allowed shm.hdr.tail shm.hdr.head
      ∙ ap (λ f. min (window st slice_len) (shm.hdr.tail - p.head) / f * f) unit_stride

  -- A cycle of the playback callback whose stride is the ring's frame, over a valid ring that
  -- holds the stream, while no push is under way and the budget, a word, or the backlog fits the
  -- ring, returns: the window holds the planned slice of the stream and silence after it, `head`
  -- is behind that slice, an underflow is counted if the slice is shorter than the window, and an
  -- overflow if the backlog was larger than the budget.
  pub process_fills :
      {stream : List ℕ}
      → IsValid st.ring shm
      → Holds st.ring shm stream
      → shm.hdr.seq % 2 ≡ 0
      → (window st slice_len + st.max_latency_bytes ≤ st.ring.cap)
        ⊎ (shm.hdr.tail ≤ shm.hdr.head + st.ring.cap)
      → (fuel : ℕ)
      → process (suc fuel) st shm (some slice_len)
        ≡ some (
            returned
              (state_after st shm slice_len)
              (shm_after st shm slice_len)
              (slice stream p.head p.want ++ replicate (window st slice_len - p.want) 0)
              (window st slice_len))
  unfolding process pointers
  process_fills v h even c fuel =
      rw
        (
          ne→== st.stride 0 (omega (arith, playing.some_frame)),
          mod-eq_of_lt playing.word,
          read_quantum_returns v h even (window st slice_len)
              (window st slice_len + st.max_latency_bytes)
              (elim c [
                | inl le ↦ inl (
                    omega (
                      arith,
                      div-mul-le_self (window st slice_len + st.max_latency_bytes)
                          (unit shm.hdr.frame_bytes),
                    ))
                | inr le ↦ inr le
              ])
              fuel,
        )
        refl

  backlog_bound :
      (shm.hdr.tail - (shm_after st shm slice_len).hdr.head ≤ st.max_latency_bytes)
      ⊎ (shm.hdr.tail - (shm_after st shm slice_len).hdr.head < st.stride)
  backlog_bound = elim (dec_le (window st slice_len) (shm.hdr.tail - p.head)) [
    | yes full ↦
        let m : min (window st slice_len) (shm.hdr.tail - p.head) ≡ window st slice_len =
          omega arith in
        let w : p.want ≡ window st slice_len =
          want_min ∙ ap (λ t. t / st.stride * st.stride) m ∙ whole in
        inl (omega (arith, w, heads, div-mul-le_self allowed (unit shm.hdr.frame_bytes)))
    | no less ↦
        let m : min (window st slice_len) (shm.hdr.tail - p.head) ≡ shm.hdr.tail - p.head =
          omega arith in
        let w : p.want ≡ (shm.hdr.tail - p.head) / st.stride * st.stride =
          want_min ∙ ap (λ t. t / st.stride * st.stride) m in
        inr (omega (arith, w, heads, lt-div-mul-add {a = shm.hdr.tail - p.head} playing.some_frame))
  ]

  -- A cycle of the playback callback whose stride is the ring's frame, over a valid ring that
  -- holds the stream, while no push is under way and the budget, a word, or the backlog fits the
  -- ring, returns, and what it leaves in the ring is at most the latency budget, or less than a
  -- frame.
  pub process_keeps_up :
      {stream : List ℕ}
      → IsValid st.ring shm
      → Holds st.ring shm stream
      → shm.hdr.seq % 2 ≡ 0
      → (window st slice_len + st.max_latency_bytes ≤ st.ring.cap)
        ⊎ (shm.hdr.tail ≤ shm.hdr.head + st.ring.cap)
      → (fuel : ℕ)
      → (st' : PlaybackState) × (shm' : Shm) × (filled : List ℕ) × (process
            (suc fuel)
            st
            shm
            (some slice_len)
          ≡ some (returned st' shm' filled (window st slice_len)))
        × ((shm'.hdr.tail - shm'.hdr.head ≤ st.max_latency_bytes)
            ⊎ (shm'.hdr.tail - shm'.hdr.head < st.stride))
  process_keeps_up {stream} v h even c fuel = (
    state_after st shm slice_len,
    shm_after st shm slice_len,
    slice stream p.head p.want ++ replicate (window st slice_len - p.want) 0,
    process_fills v h even c fuel,
    backlog_bound,
  )
