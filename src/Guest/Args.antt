-- ===== src/Guest/Args.antt =====
-- `parse_args` of packages/lalah-vm/src/main.rs. `none` is the exit with the usage text.
pub mod Options
use Prim.Native.String.{String}
use text.Mathlib.Text.{◌==◌}
use lalah.Base.{
  Bool, true, false, not, ◌&&◌, ◌||◌, Option, none, some, List, [], ◌∷◌, if◌then◌else◌, ◌>>=◌,
}

abbrev pub default_device_id : String
default_device_id = ""

pub record Args : Type 0 where
  pub device_id : String
  pub ds_audio : Bool
  pub audio_device : Option String
  pub video_keepalive : Bool
  pub video_device : Option String
  pub video_renderer : String
  pub video_passthrough : Bool

abbrev pub defaults : Args
defaults = record {
  device_id = default_device_id;
  ds_audio = false;
  audio_device = none;
  video_keepalive = false;
  video_device = none;
  video_renderer = "null";
  video_passthrough = false;
}

-- The arms that call `it.next()`.
abbrev pub takes_value : String → Bool
takes_value arg =
    (arg == "--device")
    || (arg == "--audio-device")
    || (arg == "--video-device")
    || (arg == "--video-renderer")

-- The arms with a value, for the four arguments that take one.
abbrev pub set_value : Args → (arg val : String) → Option Args
set_value a arg val =
    if arg == "--device"
    then some (record a { device_id = val })
    else if arg == "--audio-device"
    then some (record a { audio_device = some val; ds_audio = true })
    else if arg == "--video-device"
    then some (record a { video_device = some val; video_keepalive = true })
    else if not (val == "null") && not (val == "window")
    then none
    else some (record a { video_renderer = val })

-- The arms without a value.
abbrev pub set_flag : Args → (arg : String) → Option Args
set_flag a arg =
    if arg == "--ds-audio"
    then some (record a { ds_audio = true })
    else if arg == "--video-keepalive"
    then some (record a { video_keepalive = true })
    else if arg == "--video-passthrough"
    then some (record a { video_passthrough = true; ds_audio = true })
    else none

-- The loop over the arguments.
unfoldable pub parse_from : Args → List String → Option Args
parse_from a [] = some a
parse_from a (arg ∷ []) = if takes_value arg then none else set_flag a arg
parse_from a (arg ∷ val ∷ rest) =
    if takes_value arg
    then (set_value a arg val >>= λ b. parse_from b rest)
    else (set_flag a arg >>= λ b. parse_from b (val ∷ rest))

unfoldable pub parse_args : List String → Option Args
parse_args args =
    parse_from defaults args >>= λ a. (if not a.ds_audio && a.device_id == "" then none else some a)
