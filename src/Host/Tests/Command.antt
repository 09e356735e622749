-- ===== src/Host/Tests/Command.antt =====
-- The texts of FourCC codes, and the mpv command.
use lalah.Base.{ℕ, ◌≡◌, refl, none, some}
use lalah.Base.Texts.{codes}
use lalah.Video.Header.{VideoFormat}
use lalah.Host.Forward.Command.{fourcc_string, mpv_mp_format, mpv_command}

abbrev yuy2 : ℕ
yuy2 = 0x3259_5559

prints_chars : fourcc_string yuy2 ≡ codes "YUY2"
unfolding fourcc_string
prints_chars = refl

-- A code of three letters and a space.
prints_trimmed : fourcc_string 0x2038_3059 ≡ codes "Y08"
unfolding fourcc_string
prints_trimmed = refl

prints_number : fourcc_string 0x1f ≡ codes "0x0000001F"
unfolding fourcc_string
prints_number = refl

knows_planar : mpv_mp_format 0x3231_5659 ≡ some "yuv420p"
unfolding mpv_mp_format
knows_planar = refl

knows_no_mjpg : mpv_mp_format 0x4750_4A4D ≡ none
unfolding mpv_mp_format
knows_no_mjpg = refl

abbrev picture : VideoFormat
picture = record {
  width = 1920;
  height = 1080;
  stride = 3840;
  fourcc = yuy2;
  frame_size = 4_147_200;
}

commands :
    mpv_command picture (codes "/tmp/v")
    ≡ codes
        "mpv --demuxer=rawvideo --demuxer-rawvideo-w=1920 --demuxer-rawvideo-h=1080 --demuxer-rawvideo-mp-format=yuyv422 --untimed --demuxer-rawvideo-fps=60 --profile=low-latency /tmp/v"
unfolding mpv_command mpv_mp_format
commands = refl
