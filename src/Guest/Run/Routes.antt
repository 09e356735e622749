-- ===== src/Guest/Run/Routes.antt =====
-- Where the run leads.
use Prim.Native.String.{String}
use lalah.Base.{
  ℕ, ◌≡◌, ◌≢◌, ◌⊎◌, inl, inr, refl, ap, ◌∙◌, Bool, true, false, Option, none, some, List, ◌∷◌,
  arith, if◌then◌else◌, Result, ok, err, Bool-cases, Option-cases,
}
use lalah.Audio.Ring.{Shm, ShmAudioBuffer, attach}
use lalah.Audio.Ring.Attach.{IsAttachable, attach_iff}
use lalah.Video.Header.{video_region}
use lalah.Video.Ring.{VideoShm, ShmVideoBuffer, attach as attach_video}
use lalah.Video.Ring.Geometry.{IsAttachable as IsVideoAttachable, attach_video_iff}
use lalah.Guest.Args.{Args, parse_args}
use lalah.Guest.Args.Options.{IsConsistent, parse_args-IsConsistent}
use lalah.Guest.Run.{
  first_ok, attach_loop, attach_video_loop, World, dshow, wasapi, Capture, capturing, keep_alive_of,
  route_of, capture_with, with_attached, with_region, with_ring, with_mapping, run,
}

-- An element of the list has the property.
pub data SomeOf {ℓ} {A : Type ℓ} (P : A → Type 0) : List A → Type ℓ where
  now : {a : A} {rest : List A} → P a → SomeOf P (a ∷ rest)
  later : {a : A} {rest : List A} → SomeOf P rest → SomeOf P (a ∷ rest)

-- The renderer that the DirectShow graph is given.
abbrev pub IsRenderer : Option String → Type 0
IsRenderer r = (r ≡ none) ⊎ ((r ≡ some "null") ⊎ (r ≡ some "window"))

-- The capture is called as the arguments say.
pub data Routed (a : Args) (c : Capture) : Type 0 where
  by_dshow :
      (renderer : Option String) (video_ring : Option ShmVideoBuffer)
      → a.ds_audio ≡ true
      → c.route ≡ dshow a.audio_device a.video_device renderer video_ring
      → c.keep_alive ≡ none
      → IsRenderer renderer
      → Routed a c
  by_wasapi :
      c.route ≡ wasapi a.device_id
      → a.device_id ≢ ""
      → a.audio_device ≡ none
      → a.video_passthrough ≡ false
      → Routed a c

ok_first :
    {A : Type 0} (r : Result A String) (rest : Option A)
    → ((a : A) × (r ≡ ok a)) ⊎ ((a : A) × (rest ≡ some a))
    → (a : A) × (first_ok r rest ≡ some a)
ok_first (ok a) rest h = (a, refl)
ok_first (err e) rest (inl (a, h)) = absurd (ground arith)
ok_first (err e) rest (inr h) = h

attach_loop-some :
    (len : ℕ) {shms : List Shm}
    → SomeOf (λ shm. IsAttachable shm len) shms
    → (ring : ShmAudioBuffer) × (attach_loop len shms ≡ some ring)
unfolding attach_loop
attach_loop-some len (now {a} {rest} p) =
    ok_first (attach a len) (attach_loop len rest) (inl (_, (attach_iff a len _).1 (p, refl)))
attach_loop-some len (later {a} {rest} s) =
    ok_first (attach a len) (attach_loop len rest) (inr (attach_loop-some len s))

attach_video_loop-some :
    (vlen : ℕ) {shms : List VideoShm}
    → SomeOf (λ shm. IsVideoAttachable shm vlen) shms
    → (ring : ShmVideoBuffer) × (attach_video_loop vlen shms ≡ some ring)
unfolding attach_video_loop
attach_video_loop-some vlen (now {a} {rest} p) =
    ok_first (attach_video a vlen) (attach_video_loop vlen rest)
      (inl (_, (attach_video_iff a vlen _).1 (p, refl)))
attach_video_loop-some vlen (later {a} {rest} s) =
    ok_first (attach_video a vlen) (attach_video_loop vlen rest)
      (inr (attach_video_loop-some vlen s))

no_audio_device : (a : Args) → IsConsistent a → a.ds_audio ≡ false → a.audio_device ≡ none
no_audio_device a c f = elim (Option-cases a.audio_device) [
  | inl e ↦ e
  | inr (name, e) ↦ absurd (ground (arith, c.audio name e))
]

route_of-IsRenderer :
    (a : Args)
    → IsConsistent a
    → IsRenderer (if a.video_keepalive then some a.video_renderer else none)
route_of-IsRenderer a c = elim (Bool-cases a.video_keepalive) [
  | inl t ↦ elim c.renderer [
    | inl e ↦ rw (t, e) (inr (inl refl))
    | inr e ↦ rw (t, e) (inr (inr refl))
  ]
  | inr f ↦ rw f (inl refl)
]

no_passthrough : (a : Args) → IsConsistent a → a.ds_audio ≡ false → a.video_passthrough ≡ false
no_passthrough a c f = elim (Bool-cases a.video_passthrough) [
  | inl t ↦ absurd (ground (arith, c.passthrough t))
  | inr e ↦ e
]

routed :
    (a : Args) (w : World) (ring : ShmAudioBuffer) (video_ring : Option ShmVideoBuffer)
    → IsConsistent a
    → (a.ds_audio ≡ false → a.device_id ≢ "")
    → (c : Capture) × (capture_with a w ring video_ring ≡ capturing c) × Routed a c
unfolding keep_alive_of route_of
routed a w ring video_ring c id = elim (Bool-cases a.ds_audio) [
  | inl t ↦ (
    _,
    refl,
    by_dshow (if a.video_keepalive then some a.video_renderer else none) video_ring t (rw t refl)
        (rw t refl) (route_of-IsRenderer a c),
  )
  | inr f ↦ (_, refl, by_wasapi (rw f refl) (id f) (no_audio_device a c f) (no_passthrough a c f))
]

module _ (w : World) {len : ℕ} (argv : List String) (a : Args) (typed : parse_args argv ≡ some a)
    (mapped : w.region ≡ ok len) (ready : SomeOf (λ shm. IsAttachable shm len) w.audio) where
  with_attached_lem :
      (ring : ShmAudioBuffer) (o : Option ShmVideoBuffer)
      → ((v : ShmVideoBuffer) × (o ≡ some v))
      → (c : Capture) × (with_attached a w ring o ≡ capturing c) × Routed a c
  with_attached_lem ring none (v, e) = absurd (ground arith)
  with_attached_lem ring (some v) h =
      routed a w ring (some v) (parse_args-IsConsistent argv a typed).0
        (parse_args-IsConsistent argv a typed).1

  with_region_lem :
      (ring : ShmAudioBuffer) (o : Option (ℕ × ℕ))
      → ((vbase vlen : ℕ)
          → o ≡ some (vbase, vlen)
          → SomeOf (λ shm. IsVideoAttachable shm vlen) w.video)
      → (c : Capture) × (with_region a w ring o ≡ capturing c) × Routed a c
  with_region_lem ring none h =
      routed a w ring none (parse_args-IsConsistent argv a typed).0
        (parse_args-IsConsistent argv a typed).1
  with_region_lem ring (some (vbase, vlen)) h =
      with_attached_lem ring (attach_video_loop vlen w.video)
        (attach_video_loop-some vlen (h vbase vlen refl))

  -- The ring is attached, and the branch is taken.
  run_at :
      (ring : ShmAudioBuffer) (b : Bool)
      → attach_loop len w.audio ≡ some ring
      → a.video_passthrough ≡ b
      → run a w
        ≡ (if b then with_region a w ring (video_region len) else capture_with a w ring none)
  unfolding run
  run_at ring b e t =
      ap (with_mapping a w) mapped
      ∙ ap (with_ring a w len) e
      ∙ ap (λ c. if c then with_region a w ring (video_region len) else capture_with a w ring none)
          t

  -- With arguments that `parse_args` accepts and a region that is mapped, if the ring is
  -- attachable at some attempt, and, for passthrough over a mapping with a video sub-region, that
  -- sub-region at some attempt, the guest's run comes to call a capture: DirectShow's with a
  -- renderer that is one of the two or none and without a keep-alive thread, or WASAPI's with a
  -- device id, when neither an audio device nor passthrough is asked for.
  pub run-Routed :
      ((vbase vlen : ℕ)
        → a.video_passthrough ≡ true
        → video_region len ≡ some (vbase, vlen)
        → SomeOf (λ shm. IsVideoAttachable shm vlen) w.video)
      → (c : Capture) × (run a w ≡ capturing c) × Routed a c
  run-Routed video_ready =
      let (ring, e) = attach_loop-some len ready in
      elim (Bool-cases a.video_passthrough) [
        | inl t ↦
            let (c, e', r) =
              with_region_lem ring (video_region len) (λ vbase vlen. video_ready vbase vlen t) in
            (c, run_at ring true e t ∙ e', r)
        | inr f ↦
            let (c, e', r) =
              routed a w ring none (parse_args-IsConsistent argv a typed).0
                (parse_args-IsConsistent argv a typed).1 in
            (c, run_at ring false e f ∙ e', r)
      ]
