-- ===== src/Host/Args.antt =====
-- `parse_args` of packages/lalah-host/src/main.rs. `none` is the exit with the usage text.
pub mod Number
pub mod Range
use Prim.Native.String.{String}
use text.Mathlib.Text.{◌==◌ as is_text}
use lalah.Base.{
  ℕ, ◌*◌, ltb, Bool, ◌||◌, Option, none, some, List, [], ◌∷◌, if◌then◌else◌, ◌>>=◌, u32_mod,
  u64_mod,
}
use Number.{parse}

abbrev pub default_shm : String
default_shm = "/dev/shm/lalah"

abbrev pub default_latency_ms : ℕ
default_latency_ms = 20

abbrev pub default_quantum : ℕ
default_quantum = 256

abbrev pub default_video_read_delay_us : ℕ
default_video_read_delay_us = 500

abbrev pub default_video_pipe_size : ℕ
default_video_pipe_size = 4 * 1024 * 1024

pub record HostArgs : Type 0 where
  pub shm_path : String
  pub latency_ms : ℕ
  pub quantum : ℕ
  pub video_fifo : Option String
  pub video_read_delay_us : ℕ
  pub video_pipe_size : ℕ

abbrev pub host_defaults : HostArgs
host_defaults = record {
  shm_path = default_shm;
  latency_ms = default_latency_ms;
  quantum = default_quantum;
  video_fifo = none;
  video_read_delay_us = default_video_read_delay_us;
  video_pipe_size = default_video_pipe_size;
}

-- `filter(|&q| q > 0)`.
abbrev pub positive : Option ℕ → Option ℕ
positive none = none
positive (some q) = if ltb 0 q then some q else none

-- The arms of the match, each of which takes a value; any other argument is an exit.
unfoldable pub set_option : HostArgs → (arg val : String) → Option HostArgs
set_option a arg val =
    if is_text arg "--shm"
    then some (record a { shm_path = val })
    else if is_text arg "--latency-ms"
    then (parse u32_mod val >>= λ n. some (record a { latency_ms = n }))
    else if is_text arg "--quantum"
    then (positive (parse u32_mod val) >>= λ n. some (record a { quantum = n }))
    else if is_text arg "--video-fifo"
    then some (record a { video_fifo = some val })
    else if is_text arg "--video-read-delay-us"
    then (parse u64_mod val >>= λ n. some (record a { video_read_delay_us = n }))
    else if is_text arg "--video-pipe-size"
    then (positive (parse u64_mod val) >>= λ n. some (record a { video_pipe_size = n }))
    else none

-- The loop over the arguments. One without a value is an exit in every arm.
unfoldable pub parse_options : HostArgs → List String → Option HostArgs
unfolding set_option
parse_options a [] = some a
parse_options a (arg ∷ []) = none
parse_options a (arg ∷ val ∷ rest) = set_option a arg val >>= λ b. parse_options b rest

unfoldable pub parse_host_args : List String → Option HostArgs
unfolding parse_options
parse_host_args args = parse_options host_defaults args
