-- ===== src/Guest/Args/Options.antt =====
-- What the arguments that are accepted imply of each other.
use Prim.Native.String.{String}
use text.Mathlib.Text.{◌==◌}
use text.Mathlib.TextEquality.{eq_iff}
use mathlib.Core.Option.{some-injective, none-ne-some}
use lalah.Base.{
  subst, ◌≡◌, ◌≢◌, ◌⊎◌, inl, inr, refl, sym, ◌∙◌, true, false, not, ◌&&◌, none, some, List, [], ◌∷◌,
  if◌then◌else◌, bind_inv, arith, Bool-cases,
}
use lalah.Guest.Args.{Args, defaults, takes_value, set_value, set_flag, parse_from, parse_args}

-- Naming a device turns its path on, passthrough rides the DirectShow graph, and the renderer is one of
-- the two.
pub record IsConsistent (a : Args) : Type 0 where
  pub audio : (name : String) → a.audio_device ≡ some name → a.ds_audio ≡ true
  pub video : (name : String) → a.video_device ≡ some name → a.video_keepalive ≡ true
  pub passthrough : a.video_passthrough ≡ true → a.ds_audio ≡ true
  pub renderer : (a.video_renderer ≡ "null") ⊎ (a.video_renderer ≡ "window")

set_flag-IsConsistent :
    (a b : Args) (arg : String) → IsConsistent a → set_flag a arg ≡ some b → IsConsistent b
set_flag-IsConsistent a b arg c e = record {
  audio = λ name q. ground (arith, c.audio name);
  video = λ name q. ground (arith, c.video name);
  passthrough = λ q. ground (arith, c.passthrough);
  renderer = ground (arith, c.renderer);
}

set_value-IsConsistent :
    (a b : Args) (arg val : String) → IsConsistent a → set_value a arg val ≡ some b → IsConsistent b
set_value-IsConsistent a b arg val c e = record {
  audio = λ name q. ground (arith, c.audio name);
  video = λ name q. ground (arith, c.video name);
  passthrough = λ q. ground (arith, c.passthrough);
  renderer = ground (arith, c.renderer, (eq_iff val "null").0, (eq_iff val "window").0);
}

defaults-IsConsistent : IsConsistent defaults
defaults-IsConsistent = record {
  audio = λ name q. absurd (ground arith);
  video = λ name q. absurd (ground arith);
  passthrough = λ q. absurd (ground arith);
  renderer = inl refl;
}

parse_from-IsConsistent :
    (args : List String) (a b : Args) → IsConsistent a → parse_from a args ≡ some b → IsConsistent b
unfolding parse_from
parse_from-IsConsistent [] a b c e = subst IsConsistent (some-injective a b e) c
parse_from-IsConsistent (arg ∷ []) a b c e = elim (Bool-cases (takes_value arg)) [
  | inl t ↦ absurd (none-ne-some b (sym (rw t refl) ∙ e))
  | inr f ↦ set_flag-IsConsistent a b arg c (sym (rw f refl) ∙ e)
]
parse_from-IsConsistent (arg ∷ val ∷ rest) a b c e = elim (Bool-cases (takes_value arg)) [
  | inl t ↦
      let (a', e', r) =
        bind_inv (set_value a arg val) (λ d. parse_from d rest) b (sym (rw t refl) ∙ e) in
      parse_from-IsConsistent rest a' b (set_value-IsConsistent a a' arg val c e') r
  | inr f ↦
      let (a', e', r) =
        bind_inv (set_flag a arg) (λ d. parse_from d (val ∷ rest)) b (sym (rw f refl) ∙ e) in
      parse_from-IsConsistent (val ∷ rest) a' b (set_flag-IsConsistent a a' arg c e') r
]

checked_id :
    (d a : Args)
    → (if not d.ds_audio && d.device_id == "" then none else some d) ≡ some a
    → (d ≡ a) × (a.ds_audio ≡ false → a.device_id ≢ "")
checked_id d a r = elim (Bool-cases (not d.ds_audio && d.device_id == "")) [
  | inl t ↦ absurd (none-ne-some a (sym (rw t refl) ∙ r))
  | inr f ↦
      let same : d ≡ a = some-injective d a (sym (rw f refl) ∙ r) in
      (
        same,
        subst (λ (x : Args). x.ds_audio ≡ false → x.device_id ≢ "") same
            (λ q z. ground (arith, (eq_iff d.device_id "").1 z)),
      )
]

-- Arguments that the guest accepts are consistent: naming a device turns its path on, passthrough
-- rides the DirectShow graph, the renderer is one of the two, and without DirectShow audio a
-- device id is given.
pub parse_args-IsConsistent :
    (args : List String) (a : Args)
    → parse_args args ≡ some a
    → IsConsistent a × (a.ds_audio ≡ false → a.device_id ≢ "")
unfolding parse_args
parse_args-IsConsistent args a e =
    let (d, e', r) =
      bind_inv (parse_from defaults args)
        (λ d. if not d.ds_audio && d.device_id == "" then none else some d) a e in
    let (same, id) = checked_id d a r in
    (subst IsConsistent same (parse_from-IsConsistent args defaults d defaults-IsConsistent e'), id)
