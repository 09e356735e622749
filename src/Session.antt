-- ===== src/Session.antt =====
-- The two processes together: the host prepares the region (packages/shared/src/lib.rs), the guest
-- attaches and captures (packages/lalah-vm/src/wasapi.rs), and the host reads.
pub mod Frames
pub mod Watched
pub mod Forward
pub mod Thread
pub mod Playback
pub mod Listening
pub mod Gapless
mod Tests
use lalah.Base.{
  ℕ, suc, ◌+◌, ◌-◌, ◌%◌, max, ◌≤◌, ◌<◌, ◌≡◌, inl, refl, sym, subst, ◌∙◌, some, List, ◌++◌, arith,
  length, replicate, u64_mod, ok, ne→==,
}
use native.Mathlib.Nat.{div-mul-le_self}
use mathlib.Core.Option.{some-injective}
use lalah.Audio.Header.{AudioFormat, size_of_header}
use lalah.Audio.Ring.{
  Shm, ShmAudioBuffer, init, attach, set_format, format, Plan, plan, read_quantum, Pass, done,
}
use lalah.Audio.Ring.Attach.{Ready, init-Ready, format-set_format}
use lalah.Audio.Ring.Read.{slice, read_quantum_returns}
use lalah.Guest.Wasapi.{negotiate, Wake, Stop}
use lalah.Guest.Wasapi.Capture.{IsCapturing, captured_all}
use lalah.Guest.Wasapi.Words.{IsSame}
use lalah.Guest.Wasapi.Exclusive.{EndpointCalls, Session, stopped, capture_exclusive}
use lalah.Guest.Wasapi.Exclusive.Calls.{
  IsFresh, Ends, unpublished, published, captured, capture_exclusive-Ends,
}

Ready-IsFresh :
    {me : ShmAudioBuffer} {shm : Shm} {total : ℕ}
    → me.cap % 8 ≡ 0
    → Ready shm total me
    → IsFresh me shm
Ready-IsFresh whole r = record {
  valid = r.valid;
  holds = r.holds;
  at_start = r.at_start;
  even = rw r.quiet refl;
  whole = whole;
}

-- The end of a capture that went through its loop.
ended :
    {c : EndpointCalls} {me : ShmAudioBuffer} {shm : Shm} {ws : List Wake} {r : Session} {s : Stop}
    → Ends c me shm ws r
    → r.exit ≡ stopped s
    → (fmt : AudioFormat) × (negotiate c.supported ≡ some fmt)
      × IsCapturing me fmt.frame_bytes r.shm (captured_all me fmt.frame_bytes ws)
      × IsSame (set_format shm fmt) r.shm
      × (0 < fmt.frame_bytes)
ended (unpublished h x e) x' = absurd (ground arith)
ended (published fmt h n st x e o) x' = absurd (ground arith)
ended (captured fmt n x k same pos o) x' = (fmt, n, k, same, pos)

format_words :
    (shm : Shm) (fmt : AudioFormat) → format shm ≡ some fmt → shm.hdr.frame_bytes ≡ fmt.frame_bytes
unfolding format
format_words shm fmt e = ground arith

pub set_head : (shm : Shm) (fmt : AudioFormat) → (set_format shm fmt).hdr.head ≡ shm.hdr.head
unfolding set_format
set_head shm fmt = refl

pub set_seq : (shm : Shm) (fmt : AudioFormat) → (set_format shm fmt).hdr.seq % 2 ≡ shm.hdr.seq % 2
unfolding set_format
set_seq shm fmt = refl

pub init_cap :
    (shm : Shm) (total cap : ℕ) {me : ShmAudioBuffer} {shm' : Shm}
    → init shm total cap ≡ some (me, shm')
    → me.cap ≡ cap
unfolding init
init_cap shm total cap e = ground arith

-- What a read returns that delivers `p` of the stream.
abbrev pub delivers : Shm → (stream : List ℕ) → (out_len : ℕ) → Plan → Pass
delivers shm stream out_len p =
    done (record shm { hdr = record shm.hdr { head = p.head + p.want } })
      (slice stream p.head p.want ++ replicate (out_len - p.want) 0) p.want

-- What the host's first read after a capture gives.
first_read :
    {me : ShmAudioBuffer} {shm : Shm} {stream : List ℕ} {fmt : AudioFormat}
    → IsCapturing me fmt.frame_bytes shm stream
    → format shm ≡ some fmt
    → shm.hdr.head ≡ 0
    → shm.hdr.seq % 2 ≡ 0
    → (out_len max_latency_bytes fuel : ℕ) → max_latency_bytes ≤ me.cap
    → read_quantum (suc fuel) me shm out_len max_latency_bytes
      ≡ some (
          delivers shm stream out_len
            (plan fmt.frame_bytes out_len max_latency_bytes (length stream) 0))
first_read {me} {shm} {stream} {fmt} k e at_start even out_len max_latency_bytes fuel le =
    subst
      (λ (p : Plan).
        read_quantum (suc fuel) me shm out_len max_latency_bytes
        ≡ some (delivers shm stream out_len p))
      (rw (format_words shm fmt e, k.holds.count, at_start) refl)
      (read_quantum_returns k.valid k.holds even out_len max_latency_bytes
        (inl (omega (arith, div-mul-le_self max_latency_bytes (max shm.hdr.frame_bytes 1), le)))
        fuel)

module _ (shm : Shm) {prepared : Shm} {total cap : ℕ} {me : ShmAudioBuffer} (word : cap < u64_mod)
    (mapped : total ≤ size_of_header + shm.payload.size) (whole : cap % 8 ≡ 0)
    (opened : init shm total cap ≡ some (me, prepared)) where
  -- The host's `init` has prepared a region whose payload is mapped, with a ring of whole groups
  -- of 8 bytes, and the guest's `capture_exclusive` over it ends by its loop, with fewer than
  -- 2^64 bytes captured in whichever format is negotiated. Then `attach` gives the guest the
  -- host's handle; the format that the host reads is the one that the guest negotiated; and a
  -- read, while no push is under way and the latency budget fits the ring, returns the planned
  -- slice of what was captured and silence after it.
  pub session_lem :
      (c : EndpointCalls) (ws : List Wake) {r : Session} {s : Stop}
      → ((fmt : AudioFormat)
          → negotiate c.supported ≡ some fmt
          → length (captured_all me fmt.frame_bytes ws) < u64_mod)
      → capture_exclusive c me prepared ws ≡ some r
      → r.exit ≡ stopped s
      → (out_len max_latency_bytes fuel : ℕ) → max_latency_bytes ≤ cap
      → (attach prepared total ≡ ok me)
        × ((fmt : AudioFormat) × (negotiate c.supported ≡ some fmt)
            × (format r.shm ≡ some fmt)
            × (read_quantum (suc fuel) me r.shm out_len max_latency_bytes
                ≡ some (
                    delivers r.shm (captured_all me fmt.frame_bytes ws) out_len (
                      plan fmt.frame_bytes out_len max_latency_bytes
                        (length (captured_all me fmt.frame_bytes ws))
                        0))))
  session_lem c ws {r} {s} room e x out_len max_latency_bytes fuel le =
      let ready = init-Ready shm total cap word mapped opened in
      let same_cap : me.cap ≡ cap = init_cap shm total cap opened in
      let (r', e', ends) =
        capture_exclusive-Ends c ws (Ready-IsFresh (rw same_cap whole) ready) room in
      let same : r' ≡ r = some-injective r' r (sym e' ∙ e) in
      let (fmt, n, k, kept, pos) = ended (subst (Ends c me prepared ws) same ends) x in
      let set : format r.shm ≡ some fmt =
        kept.same_format
        ∙ format-set_format prepared fmt
        ∙ rw (ne→== fmt.frame_bytes 0 (omega (arith, pos))) refl in
      (
        ready.attaches,
        (
          fmt,
          n,
          set,
          first_read k set (kept.same_head ∙ set_head prepared fmt ∙ ready.at_start)
              (kept.parity ∙ set_seq prepared fmt ∙ rw ready.quiet refl) out_len max_latency_bytes
              fuel (omega (arith, same_cap, le)),
        ),
      )
