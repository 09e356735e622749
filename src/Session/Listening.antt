-- ===== src/Session/Listening.antt =====
-- The host's playback from the preparation of the region on (packages/lalah-host/src/playback.rs, with the
-- guest's pushes, packages/shared/src/lib.rs).
use lalah.Base.{
  take, drop, ◌-◌, ℕ, ◌+◌, ◌≤◌, ◌<◌, ◌≡◌, refl, sym, subst, ap, ◌∙◌, some, List, [], arith, length,
  u64_mod, ne→==,
}
use lalah.Audio.Header.{AudioFormat, size_of_header}
use lalah.Audio.Ring.{Shm, ShmAudioBuffer, init, set_format, format}
use lalah.Audio.Ring.Attach.{Ready, init-Ready, format-set_format, set_format-Holds}
use lalah.Host.Playback.{PlaybackState}
use lalah.Host.Playback.Setup.{
  SpaConstants, PipewireCalls, Playing, running, initial_state, run_playback,
}
use lalah.Session.{set_head, set_seq, init_cap}
use lalah.Session.Gapless.{KeepsUp, heard, left_over, gapless}
use lalah.Session.Playback.{Event, Piece, play, published, AllFit, AreNext, IsPlayed, play_lem}

-- The callback's state, if the main loop comes to run.
running_state :
    (c : PipewireCalls) (k : SpaConstants) (fmt : AudioFormat) (ring : ShmAudioBuffer)
    (max_latency_bytes quantum : ℕ) {p : Playing}
    → run_playback c k fmt ring max_latency_bytes quantum ≡ some (running p)
    → p.state ≡ initial_state fmt ring max_latency_bytes
unfolding run_playback
running_state c k fmt ring max_latency_bytes quantum e = ground arith

set_bytes : (shm : Shm) (fmt : AudioFormat) → (set_format shm fmt).hdr.frame_bytes ≡ fmt.frame_bytes
unfolding set_format
set_bytes shm fmt = refl

set_payload : (shm : Shm) (fmt : AudioFormat) → (set_format shm fmt).payload ≡ shm.payload
unfolding set_format
set_payload shm fmt = refl

-- A ring that is ready, with a format set, is played by the state that the callback begins with.
Ready-IsPlayed :
    {me : ShmAudioBuffer} {shm : Shm} {total : ℕ} (fmt : AudioFormat) (max_latency_bytes : ℕ)
    → me.cap < u64_mod
    → 0 < fmt.frame_bytes
    → Ready shm total me
    → IsPlayed (initial_state fmt me max_latency_bytes) (set_format shm fmt) []
Ready-IsPlayed {me} {shm} fmt max_latency_bytes word pos r = record {
  valid = record {
    log_cap = r.valid.log_cap;
    cap_pow = r.valid.cap_pow;
    fits = rw (set_payload shm fmt) r.valid.fits;
  };
  holds = set_format-Holds fmt r.holds;
  even = set_seq shm fmt ∙ rw r.quiet refl;
  word = word;
  some_frame = pos;
  same_frame = sym (set_bytes shm fmt);
  behind = omega (arith, set_head shm fmt, r.at_start);
}

module _ (shm : Shm) {opened : Shm} {total cap : ℕ} {me : ShmAudioBuffer} (word : cap < u64_mod)
    (mapped : total ≤ size_of_header + shm.payload.size)
    (prepared : init shm total cap ≡ some (me, opened)) (fmt : AudioFormat)
    (some_frame : 0 < fmt.frame_bytes) where
  -- The host's `init` has prepared a region whose payload is mapped, and a format with frames
  -- that are not empty is set. PipeWire answers so that the host's playback comes to run, with
  -- the ring and the format it was given. Then the format is what the host reads, and for every
  -- sequence of pushes, of fewer than 2^64 bytes in all, and of callback cycles, each with a
  -- window that fits the ring together with the latency budget, one after the other: nothing
  -- faults, every cycle returns in its first round, and the pieces that the cycles play are
  -- slices of the pushed stream, each starting where the one before it ended or later, with
  -- silence after each.
  pub listening_session :
      (c : PipewireCalls) (k : SpaConstants) (max_latency_bytes quantum : ℕ) {p : Playing}
      → run_playback c k fmt me max_latency_bytes quantum ≡ some (running p)
      → (es : List Event) → AllFit fmt.frame_bytes max_latency_bytes cap es
      → length (published me es) < u64_mod
      → (format (set_format opened fmt) ≡ some fmt)
        × ((ps : List Piece) × (play p.state (set_format opened fmt) es ≡ some ps)
            × AreNext 0 (published me es) ps)
  listening_session c k max_latency_bytes quantum {p} runs es fits room =
      let ready = init-Ready shm total cap word mapped prepared in
      let same_cap : me.cap ≡ cap = init_cap shm total cap prepared in
      let begins : p.state ≡ initial_state fmt me max_latency_bytes =
        running_state c k fmt me max_latency_bytes quantum runs in
      let played =
        Ready-IsPlayed fmt max_latency_bytes (omega (arith, same_cap)) some_frame ready in
      let (ps, e, next) =
        play_lem es (initial_state fmt me max_latency_bytes) (set_format opened fmt) [] played
          (subst (λ n. AllFit fmt.frame_bytes max_latency_bytes n es) (sym same_cap) fits)
          (omega (arith, room)) in
      (
        format-set_format opened fmt
            ∙ rw (ne→== fmt.frame_bytes 0 (omega (arith, some_frame))) refl,
        (
          ps,
          ap (λ (st : PlaybackState). play st (set_format opened fmt) es) begins ∙ e,
          subst (λ h. AreNext h (published me es) ps) (set_head opened fmt ∙ ready.at_start) next,
        ),
      )

  -- The host's `init` has prepared a region whose payload is mapped, a format with frames that
  -- are not empty is set, and PipeWire answers so that the host's playback comes to run. Take the
  -- stream of the pushes, of each the newest bytes that the ring can hold. For every sequence of
  -- pushes whose stream is shorter than 2^64 bytes and of callback cycles, one after the other,
  -- with windows that fit the ring together with the latency budget, and as long as no cycle
  -- meets a backlog larger than its window and the budget in whole frames: nothing faults, and
  -- what the cycles play, without the silence, is the start of that stream, without a gap, all of
  -- it but the backlog that is left over.
  pub gapless_session :
      (c : PipewireCalls) (k : SpaConstants) (max_latency_bytes quantum : ℕ) {p : Playing}
      → run_playback c k fmt me max_latency_bytes quantum ≡ some (running p)
      → (es : List Event) → AllFit fmt.frame_bytes max_latency_bytes cap es
      → KeepsUp me fmt.frame_bytes max_latency_bytes 0 es
      → length (published me es) < u64_mod
      → (ps : List Piece) × (n : ℕ) × (play p.state (set_format opened fmt) es ≡ some ps)
        × (heard 0 ps ≡ take n (published me es))
        × (n + left_over me fmt.frame_bytes 0 es ≡ length (published me es))
  gapless_session c k max_latency_bytes quantum {p} runs es fits up room =
      let ready = init-Ready shm total cap word mapped prepared in
      let same_cap : me.cap ≡ cap = init_cap shm total cap prepared in
      let begins : p.state ≡ initial_state fmt me max_latency_bytes =
        running_state c k fmt me max_latency_bytes quantum runs in
      let played =
        Ready-IsPlayed fmt max_latency_bytes (omega (arith, same_cap)) some_frame ready in
      let set : Shm = set_format opened fmt in
      let at_start : set.hdr.head ≡ 0 = set_head opened fmt ∙ ready.at_start in
      let nothing : set.hdr.tail - set.hdr.head ≡ 0 = omega (arith, played.holds.count) in
      let (ps, n, e, all, all_but) =
        gapless es (initial_state fmt me max_latency_bytes) set [] played
          (subst (λ b. AllFit fmt.frame_bytes max_latency_bytes b es) (sym same_cap) fits)
          (subst (λ b. KeepsUp me fmt.frame_bytes max_latency_bytes b es) (sym nothing) up)
          (omega (arith, room)) in
      (
        ps,
        n,
        ap (λ (st : PlaybackState). play st set es) begins ∙ e,
        subst (λ h. heard h ps ≡ take n (drop h (published me es))) at_start all,
        subst (λ b. n + left_over me fmt.frame_bytes b es ≡ b + length (published me es)) nothing
              all_but
            ∙ omega arith,
      )
