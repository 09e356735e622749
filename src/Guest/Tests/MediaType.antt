-- ===== src/Guest/Tests/MediaType.antt =====
-- What the guest takes out of the format that it asks for.
use lalah.Base.{◌≡◌, refl, some}
use lalah.Audio.Header.{SampleFormat}
use lalah.Guest.Dshow.{parse_wfx}
use lalah.Guest.Dshow.MediaType.{wanted_audio}

gets_what_it_wants :
    parse_wfx wanted_audio
    ≡ some (record {
      sample_rate = 48_000;
      channels = 2;
      format = SampleFormat.s16_le;
      frame_bytes = 4;
    })
unfolding parse_wfx
gets_what_it_wants = refl
