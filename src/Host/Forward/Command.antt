-- ===== src/Host/Forward/Command.antt =====
-- The texts of packages/lalah-host/src/video.rs: `fourcc_string`, `mpv_mp_format`, `mpv_command`. A text is
-- the list of its bytes.
pub mod Distinct
use Prim.Native.String.{String}
use lalah.Base.{
  ℕ, zero, suc, ◌+◌, ◌/◌, ◌%◌, Option, none, some, List, [], ◌∷◌, ◌++◌, ◌==◌, ◌||◌, Bool,
  if◌then◌else◌, ltb,
}
use lalah.Base.Texts.{codes, to_le_bytes, all_printable, trim_end, hex, eq_bytes}
use lalah.Video.Header.{VideoFormat}

-- The four characters of a FourCC, or its number.
unfoldable pub fourcc_string : ℕ → List ℕ
fourcc_string fourcc =
    if fourcc == 0
    then codes "RGB/BI_RGB"
    else if all_printable (to_le_bytes fourcc)
    then trim_end (to_le_bytes fourcc)
    else codes "0x" ++ hex 8 fourcc

-- Whether the bytes are those of a code.
abbrev pub is_code : List ℕ → String → Bool
is_code b name = eq_bytes b (codes name)

abbrev pub format_of_bytes : List ℕ → Option String
format_of_bytes b =
    if is_code b "YUY2" || is_code b "YUYV"
    then some "yuyv422"
    else if is_code b "UYVY"
    then some "uyvy422"
    else if is_code b "YVYU"
    then some "yvyu422"
    else if is_code b "NV12"
    then some "nv12"
    else if is_code b "NV21"
    then some "nv21"
    else if is_code b "YV12"
    then some "yuv420p"
    else if is_code b "I420" || is_code b "IYUV"
    then some "yuv420p"
    else if is_code b "P010"
    then some "p010"
    else none

-- The name by which mpv knows the format, if it does.
unfoldable pub mpv_mp_format : ℕ → Option String
mpv_mp_format fourcc = format_of_bytes (to_le_bytes fourcc)

-- A `u32` in decimal, of up to `fuel` digits; ten are enough.
abbrev pub decimal : (fuel n : ℕ) → List ℕ
decimal zero n = []
decimal (suc fuel) n =
    let before = decimal fuel (n / 10) in
    if ltb n 10 then (48 + n) ∷ [] else before ++ (48 + n % 10) ∷ []

abbrev pub format_option : ℕ → Option String → List ℕ
format_option fourcc (some name) = codes "--demuxer-rawvideo-mp-format=" ++ codes name
format_option fourcc none =
    codes "--demuxer-rawvideo-format="
    ++ fourcc_string fourcc
    ++ codes " # adjust if mpv rejects it"

unfoldable pub mpv_command : VideoFormat → (fifo : List ℕ) → List ℕ
mpv_command vf fifo =
    codes "mpv --demuxer=rawvideo --demuxer-rawvideo-w="
    ++ decimal 10 vf.width
    ++ codes " --demuxer-rawvideo-h="
    ++ decimal 10 vf.height
    ++ codes " "
    ++ format_option vf.fourcc (mpv_mp_format vf.fourcc)
    ++ codes " --untimed --demuxer-rawvideo-fps=60 --profile=low-latency "
    ++ fifo
