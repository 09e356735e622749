-- ===== src/Guest/Dshow/Formats.antt =====
-- The media type parsers of dshow.rs: how they compare with the WASAPI parser, and the geometry
-- they give.
use lalah.Base.{
  ℕ, ◌*◌, ◌/◌, ◌≤◌, ◌<◌, ◌≡◌, ◌≢◌, refl, Bool, true, false, Option, none, some, arith, ◌>>=◌,
  le→ltb,
}
use native.Mathlib.Nat.{div-mul-le_self}
use lalah.Audio.Header.{SampleFormat, AudioFormat}
use lalah.Video.Header.{VideoFormat}
use lalah.Guest.Wasapi.{WaveFormat, float_of, sample_of, parse_audio_format}
use lalah.Guest.Dshow.{
  size_of_wave_format_extensible, wfx_sample_of, parse_wfx, VideoMediaType, BitmapInfo,
  video_format, unsigned_abs, image_size, parse_video_format,
}

sampled :
    (o : Option Bool) (bits : ℕ) (k : SampleFormat → Option AudioFormat)
    → (o >>= λ is_float. wfx_sample_of is_float bits >>= k)
      ≡ (o >>= λ is_float. sample_of is_float bits >>= k)
sampled none bits k = refl
sampled (some true) bits k = refl
sampled (some false) bits k = refl

-- On a format block long enough for the extensible form, both capture paths of the guest take the
-- same format out of it.
pub parse_wfx-parse_audio_format :
    (cb_format : ℕ) (w : WaveFormat)
    → size_of_wave_format_extensible ≤ cb_format
    → parse_wfx (record { is_wave_format = true; cb_format = cb_format; block = some w })
      ≡ parse_audio_format w
unfolding parse_wfx parse_audio_format
parse_wfx-parse_audio_format cb_format w long =
    rw (le→ltb cb_format 18 (omega arith), le→ltb cb_format 40 long)
      (sampled (float_of w) w.bits_per_sample (λ format. some (record {
        sample_rate = w.samples_per_sec;
        channels = w.channels;
        format = format;
        frame_bytes = w.block_align;
      })))

-- What a published geometry is.
pub record IsGeometry (vf : VideoFormat) : Type 0 where
  pub wide : 0 < vf.width
  pub high : 0 < vf.height
  pub some_frame : vf.frame_size ≢ 0
  pub rows : vf.stride * vf.height ≤ vf.frame_size

video_format-IsGeometry :
    (b : BitmapInfo) (vf : VideoFormat) → video_format b ≡ some vf → IsGeometry vf
video_format-IsGeometry b vf e =
    let height : vf.height ≡ unsigned_abs b.height = ground arith in
    let size : vf.frame_size ≡ image_size b = ground arith in
    let row : vf.stride ≡ image_size b / unsigned_abs b.height = ground arith in
    record {
      wide = ground arith;
      high = ground arith;
      some_frame = ground arith;
      rows = rw (height, size, row) (div-mul-le_self (image_size b) (unsigned_abs b.height));
    }

-- A media type that is parsed gives a picture with rows and columns and a frame that is not
-- empty, whose rows fit the frame.
pub parse_video_format-IsGeometry :
    (mt : VideoMediaType) (vf : VideoFormat) → parse_video_format mt ≡ some vf → IsGeometry vf
unfolding parse_video_format
parse_video_format-IsGeometry mt vf e = parsed mt.block (ground arith)
  where
    parsed : (o : Option BitmapInfo) → (o >>= λ b. video_format b) ≡ some vf → IsGeometry vf
    parsed none e' = absurd (ground arith)
    parsed (some b) e' = video_format-IsGeometry b vf e'
