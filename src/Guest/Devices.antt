-- ===== src/Guest/Devices.antt =====
-- The choice of a capture device in packages/lalah-vm/src: `find_audio_source`, `find_video_source` and
-- `moniker_name` of dshow.rs, `open_graph` and `device_name_from_moniker` of video.rs. What the calls
-- of DirectShow answer, and the lower case of a text, are arguments.
pub mod Choice
use Prim.Native.String.{String, find, len}
use text.Mathlib.Text.{◌==◌}
use lalah.Base.{
  ℕ, Bool, true, false, ◌&&◌, Option, none, some, List, [], ◌∷◌, leb, if◌then◌else◌, Result, ok,
  err,
}

-- `E_FAIL` of the code itself, or what a call has failed with.
pub data DeviceError : Type 0 where
  e_fail : DeviceError
  hresult : ℕ → DeviceError

-- What reading `FriendlyName` gives: nothing, a text, or a value that is not one, with what its bits
-- read as a text.
pub data Property : Type 0 where
  unreadable : Property
  bstr : String → Property
  not_bstr : (bits : String) → Property

pub record Moniker : Type 0 where
  pub friendly_name : Property
  pub device : ℕ

unfoldable pub moniker_name : Property → Option String
moniker_name unreadable = none
moniker_name (bstr name) = if name == "" then none else some name
moniker_name (not_bstr bits) = none

unfoldable pub device_name_from_moniker : Property → Option String
device_name_from_moniker unreadable = none
device_name_from_moniker (bstr name) = some name
device_name_from_moniker (not_bstr bits) = some bits

abbrev pub unwrap_or_default : Option String → String
unwrap_or_default none = ""
unwrap_or_default (some name) = name

abbrev pub is_none : {A : Type 0} → Option A → Bool
is_none none = true
is_none (some a) = false

-- `str::contains`.
abbrev pub contains : (name part : String) → Bool
contains name part = leb (find name part) (len name)

unfoldable pub is_match : (lower : String → String) → Option String → (name : String) → Bool
is_match lower none name = true
is_match lower (some part) name = contains (lower name) (lower part)

-- The loop of `find_audio_source` and of `find_video_source`: the first match is bound.
unfoldable pub find_first :
    (lower : String → String)
    → Option String
    → (bind : ℕ → Result ℕ DeviceError) → List Moniker
    → Result ℕ DeviceError
find_first lower name_filter bind [] = err e_fail
find_first lower name_filter bind (m ∷ ms) =
    let rest = find_first lower name_filter bind ms in
    if is_match lower name_filter (unwrap_or_default (moniker_name m.friendly_name))
    then bind m.device
    else rest

-- The enumerator that `CreateClassEnumerator` gives: an error, no enumerator, or the monikers.
pub data Category : Type 0 where
  refused : ℕ → Category
  empty : Category
  devices : List Moniker → Category

-- `?`.
abbrev pub check : {A : Type 0} → Option ℕ → Result A DeviceError → Result A DeviceError
check none rest = rest
check (some e) rest = err (hresult e)

abbrev pub find_in :
    (lower : String → String)
    → Option String
    → (bind : ℕ → Result ℕ DeviceError) → (create_bind_ctx : Option ℕ) → Category
    → Result ℕ DeviceError
find_in lower name_filter bind create_bind_ctx (refused e) = err (hresult e)
find_in lower name_filter bind create_bind_ctx empty = err e_fail
find_in lower name_filter bind create_bind_ctx (devices ms) =
    check create_bind_ctx (find_first lower name_filter bind ms)

-- The body of `find_audio_source` and of `find_video_source`, which differ in the category.
unfoldable pub find_source :
    (lower : String → String)
    → Option String
    → (bind : ℕ → Result ℕ DeviceError) → (create_dev_enum create_bind_ctx : Option ℕ) → Category
    → Result ℕ DeviceError
unfolding find_first
find_source lower name_filter bind create_dev_enum create_bind_ctx category =
    check create_dev_enum (find_in lower name_filter bind create_bind_ctx category)

-- The two categories that are searched, and their enumerators.
pub record Categories : Type 0 where
  pub audio_input : Category
  pub video_input : Category

unfoldable pub find_audio_source :
    (lower : String → String)
    → Option String
    → (bind : ℕ → Result ℕ DeviceError) → (create_dev_enum create_bind_ctx : Option ℕ) → Categories
    → Result ℕ DeviceError
unfolding find_source
find_audio_source lower name_filter bind create_dev_enum create_bind_ctx categories =
    find_source lower name_filter bind create_dev_enum create_bind_ctx categories.audio_input

unfoldable pub find_video_source :
    (lower : String → String)
    → Option String
    → (bind : ℕ → Result ℕ DeviceError) → (create_dev_enum create_bind_ctx : Option ℕ) → Categories
    → Result ℕ DeviceError
unfolding find_source
find_video_source lower name_filter bind create_dev_enum create_bind_ctx categories =
    find_source lower name_filter bind create_dev_enum create_bind_ctx categories.video_input

pub record Chosen : Type 0 where
  pub device : ℕ
  pub name : String

-- The loop of `open_graph`: all monikers are walked, and the first match is kept.
unfoldable pub walk :
    (lower : String → String) → Option String → Option Chosen → List Moniker → Option Chosen
walk lower name_filter chosen [] = chosen
walk lower name_filter chosen (m ∷ ms) =
    let name = unwrap_or_default (device_name_from_moniker m.friendly_name) in
    walk lower name_filter
      (if is_none chosen && is_match lower name_filter name
        then some (record { device = m.device; name = name })
        else chosen)
      ms

-- What the calls behind the choice answer: nothing, or an error.
pub record GraphCalls : Type 0 where
  pub bind_to_object : Option ℕ
  pub create_graph : Option ℕ
  pub create_builder : Option ℕ
  pub set_filtergraph : Option ℕ
  pub add_filter : Option ℕ
  pub create_null : Option ℕ
  pub add_null : Option ℕ
  pub render_stream : Option ℕ
  pub media_control : Option ℕ
  pub media_event : Option ℕ
  pub run : Option ℕ

-- The running graph: the device in it, and whether the frames go to the null renderer.
pub record Opened : Type 0 where
  pub chosen : Chosen
  pub null_renderer : Bool

abbrev pub build :
    Option Chosen → (use_null_renderer : Bool) → GraphCalls → Result Opened DeviceError
build none use_null_renderer a = err e_fail
build (some c) use_null_renderer a =
    let opened : Result Opened DeviceError = check a.render_stream (
      check a.media_control (
        check a.media_event
          (check a.run (ok (record { chosen = c; null_renderer = use_null_renderer }))))) in
    check a.bind_to_object (
      check a.create_graph (
        check a.create_builder (
          check a.set_filtergraph (
            check a.add_filter (
              if use_null_renderer
              then check a.create_null (check a.add_null opened)
              else opened)))))

unfoldable pub open_graph :
    (lower : String → String)
    → Option String
    → (use_null_renderer : Bool) → (create_dev_enum : Option ℕ) → Category
    → GraphCalls
    → Result Opened DeviceError
unfolding walk
open_graph lower name_filter use_null (some e) category a = err (hresult e)
open_graph lower name_filter use_null none (refused e) a = err e_fail
open_graph lower name_filter use_null none empty a = err e_fail
open_graph lower name_filter use_null none (devices ms) a =
    build (walk lower name_filter none ms) use_null a
