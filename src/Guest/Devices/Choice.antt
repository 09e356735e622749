-- ===== src/Guest/Devices/Choice.antt =====
-- Which device is chosen.
use Prim.Native.String.{String}
use text.Mathlib.TextEquality.{eq_iff}
use text.Mathlib.Text.{◌==◌}
use lalah.Base.{
  ℕ, ◌≡◌, refl, sym, ap, ◌∙◌, Bool, true, false, not, ◌&&◌, Option, none, some, List, [], ◌∷◌, ◌++◌,
  arith, Result, ok, err, Bool-cases, inl, inr,
}
use mathlib.Core.Option.{some-injective}
use lalah.Guest.Devices.{
  DeviceError, e_fail, Property, unreadable, bstr, not_bstr, Moniker, moniker_name,
  device_name_from_moniker, unwrap_or_default, is_match, find_first, find_source, find_video_source,
  Categories, devices, Chosen, walk, GraphCalls, Opened, build, open_graph,
}

-- The name that `open_graph` sees, and the choice it makes of a moniker.
abbrev pub name_of : Moniker → String
name_of m = unwrap_or_default (device_name_from_moniker m.friendly_name)

abbrev pub choice : Moniker → Chosen
choice m = record { device = m.device; name = name_of m }

-- No moniker of the list matches.
abbrev pub none_match : (lower : String → String) → Option String → List Moniker → Bool
none_match lower name_filter [] = true
none_match lower name_filter (m ∷ ms) =
    not (is_match lower name_filter (name_of m)) && none_match lower name_filter ms

-- The first moniker that matches.
pub record IsFirst (lower : String → String) (name_filter : Option String) (ms : List Moniker)
    (m : Moniker) : Type 0 where
  pub before : List Moniker
  pub behind : List Moniker
  pub split : ms ≡ before ++ m ∷ behind
  pub passed : none_match lower name_filter before ≡ true
  pub matches : is_match lower name_filter (name_of m) ≡ true

-- A choice once made is kept.
walk-some :
    (lower : String → String) (name_filter : Option String) (c : Chosen) (ms : List Moniker)
    → walk lower name_filter (some c) ms ≡ some c
unfolding walk
walk-some lower name_filter c [] = refl
walk-some lower name_filter c (m ∷ ms) = walk-some lower name_filter c ms

walk-nil :
    (lower : String → String) (name_filter : Option String) → walk lower name_filter none [] ≡ none
unfolding walk
walk-nil lower name_filter = refl

walk-hit :
    (lower : String → String) (name_filter : Option String) (m : Moniker) (ms : List Moniker)
    → is_match lower name_filter (name_of m) ≡ true
    → walk lower name_filter none (m ∷ ms) ≡ some (choice m)
unfolding walk
walk-hit lower name_filter m ms h = rw h (walk-some lower name_filter (choice m) ms)

walk-miss :
    (lower : String → String) (name_filter : Option String) (m : Moniker) (ms : List Moniker)
    → is_match lower name_filter (name_of m) ≡ false
    → walk lower name_filter none (m ∷ ms) ≡ walk lower name_filter none ms
unfolding walk
walk-miss lower name_filter m ms h = rw h refl

passed :
    (lower : String → String) (name_filter : Option String) (m : Moniker) (ms : List Moniker)
    → is_match lower name_filter (name_of m) ≡ false
    → none_match lower name_filter ms ≡ true
    → none_match lower name_filter (m ∷ ms) ≡ true
passed lower name_filter m ms h none_yet = rw (h, none_yet) refl

walk-IsFirst :
    (lower : String → String) (name_filter : Option String) (c : Chosen) (ms : List Moniker)
    → walk lower name_filter none ms ≡ some c
    → (m : Moniker) × IsFirst lower name_filter ms m × (c ≡ choice m)
unfolding walk
walk-IsFirst lower name_filter c [] e = absurd (ground arith)
walk-IsFirst lower name_filter c (m ∷ ms) e =
    elim (Bool-cases (is_match lower name_filter (name_of m))) [
      | inl h ↦ (
        m,
        record { before = []; behind = ms; split = refl; passed = refl; matches = h },
        sym (some-injective (choice m) c (sym (walk-hit lower name_filter m ms h) ∙ e)),
      )
      | inr h ↦
          let (m', f, e') =
            walk-IsFirst lower name_filter c ms (sym (walk-miss lower name_filter m ms h) ∙ e) in
          (
            m',
            record {
              before = m ∷ f.before;
              behind = f.behind;
              split = ap (λ xs. m ∷ xs) f.split;
              passed = passed lower name_filter m f.before h f.passed;
              matches = f.matches;
            },
            e',
          )
    ]

build_inv :
    (c : Option Chosen) (use_null : Bool) (a : GraphCalls) (o : Opened)
    → build c use_null a ≡ ok o
    → (c ≡ some o.chosen) × (o.null_renderer ≡ use_null) × (a.run ≡ none)
build_inv none use_null a o e = absurd (ground arith)
build_inv (some c) true a o e = ground arith
build_inv (some c) false a o e = ground arith

-- A graph that `open_graph` opens is running, its device is the first in the enumeration whose
-- name matches the filter, under its name, and its frames go to the null renderer exactly if that
-- is asked for.
pub open_graph_lem :
    (lower : String → String) (name_filter : Option String) (use_null : Bool) (ms : List Moniker)
    (a : GraphCalls) (o : Opened)
    → open_graph lower name_filter use_null none (devices ms) a ≡ ok o
    → (m : Moniker) × IsFirst lower name_filter ms m
      × (o.chosen ≡ choice m)
      × (o.null_renderer ≡ use_null)
      × (a.run ≡ none)
unfolding open_graph
open_graph_lem lower name_filter use_null ms a o e =
    let (c, n, r) = build_inv (walk lower name_filter none ms) use_null a o e in
    let (m, f, e') = walk-IsFirst lower name_filter o.chosen ms c in (m, f, e', n, r)

-- Every name is a text, or cannot be read.
abbrev pub readable : Property → Bool
readable unreadable = true
readable (bstr name) = true
readable (not_bstr bits) = false

abbrev pub all_readable : List Moniker → Bool
all_readable [] = true
all_readable (m ∷ ms) = readable m.friendly_name && all_readable ms

-- Binds what `open_graph` has chosen.
abbrev pub bind_chosen : (bind : ℕ → Result ℕ DeviceError) → Option Chosen → Result ℕ DeviceError
bind_chosen bind none = err e_fail
bind_chosen bind (some c) = bind c.device

same_name :
    (p : Property)
    → readable p ≡ true
    → unwrap_or_default (moniker_name p) ≡ unwrap_or_default (device_name_from_moniker p)
unfolding moniker_name device_name_from_moniker
same_name unreadable h = refl
same_name (bstr name) h = elim (Bool-cases (name == "")) [
  | inl e ↦ rw e (sym ((eq_iff name "").0 e))
  | inr e ↦ rw e refl
]
same_name (not_bstr bits) h = absurd (ground arith)

find_first-walk :
    (lower : String → String) (name_filter : Option String) (bind : ℕ → Result ℕ DeviceError)
    (ms : List Moniker)
    → all_readable ms ≡ true
    → find_first lower name_filter bind ms ≡ bind_chosen bind (walk lower name_filter none ms)
unfolding find_first
find_first-walk lower name_filter bind [] h = rw (walk-nil lower name_filter) refl
find_first-walk lower name_filter bind (m ∷ ms) h =
    let same = same_name m.friendly_name (ground (arith, h)) in
    elim (Bool-cases (is_match lower name_filter (name_of m))) [
      | inl e ↦ rw (same, e, walk-hit lower name_filter m ms e) refl
      | inr e ↦
          rw (same, e, walk-miss lower name_filter m ms e)
            (find_first-walk lower name_filter bind ms (ground (arith, h)))
    ]

-- Over an enumeration in which every friendly name is a text or cannot be read, the search that
-- stops at the first match binds the device that the walk over all devices has kept, and fails
-- where the walk keeps none.
find_source-walk :
    (lower : String → String) (name_filter : Option String) (bind : ℕ → Result ℕ DeviceError)
    (ms : List Moniker)
    → all_readable ms ≡ true
    → find_source lower name_filter bind none none (devices ms)
      ≡ bind_chosen bind (walk lower name_filter none ms)
unfolding find_source
find_source-walk lower name_filter bind ms h = find_first-walk lower name_filter bind ms h

-- Every call behind the choice succeeds.
abbrev pub no_error : GraphCalls
no_error = record {
  bind_to_object = none;
  create_graph = none;
  create_builder = none;
  set_filtergraph = none;
  add_filter = none;
  create_null = none;
  add_null = none;
  render_stream = none;
  media_control = none;
  media_event = none;
  run = none;
}

abbrev pub device_of : Result Opened DeviceError → Result ℕ DeviceError
device_of (ok g) = ok g.chosen.device
device_of (err e) = err e

build-device :
    (use_null : Bool) (chosen : Option Chosen)
    → device_of (build chosen use_null no_error) ≡ bind_chosen ok chosen
build-device use_null none = refl
build-device true (some c) = refl
build-device false (some c) = refl

-- Over an enumeration of video devices in which every friendly name is a text or cannot be read,
-- and where no call fails, the search of the passthrough and the keep-alive's `open_graph` decide
-- on the same device, or fail alike.
pub find_video_source-open_graph :
    (lower : String → String) (name_filter : Option String) (use_null : Bool)
    (categories : Categories) (ms : List Moniker)
    → categories.video_input ≡ devices ms
    → all_readable ms ≡ true
    → find_video_source lower name_filter ok none none categories
      ≡ device_of (open_graph lower name_filter use_null none categories.video_input no_error)
unfolding find_video_source open_graph
find_video_source-open_graph lower name_filter use_null categories ms e h = rw e (
    find_source-walk lower name_filter ok ms h
    ∙ sym (build-device use_null (walk lower name_filter none ms)))
