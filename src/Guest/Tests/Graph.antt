-- ===== src/Guest/Tests/Graph.antt =====
-- The DirectShow graph at concrete answers.
use lalah.Base.{true, none, some, [], ◌∷◌, ok}
use lalah.Video.Ring.{VideoShm, ShmVideoBuffer}
use lalah.Guest.Wasapi.{make_wfx}
use lalah.Guest.Dshow.Graph.{GraphAnswers}
use lalah.Guest.Tests.{float_stereo, small_picture}

-- The card has a picture but no audio pin; the audio comes from a device of its own.
abbrev answers : GraphAnswers
answers = record {
  set_up = none ∷ none ∷ none ∷ none ∷ none ∷ [];
  find_video_source = ok 1;
  add_video_source = none;
  audio_grabber = none ∷ none ∷ [];
  route_from_video = some 7;
  find_audio_source = ok 2;
  route_from_audio = none ∷ none ∷ [];
  video_grabber = none ∷ none ∷ [];
  video_connected = record { is_video_info = true; cb_format = 88; block = some small_picture };
  set_video_callback = none;
  null_renderer = [];
  render_video = none;
  get_connected = none;
  connected = record {
    is_wave_format = true;
    cb_format = 40;
    block = some (make_wfx float_stereo);
  };
  set_callback = none;
  run = none;
}

abbrev frames_open : VideoShm
frames_open = record {
  hdr = record {
    magic = 0;
    version = 1;
    header_size = 128;
    width = 0;
    height = 0;
    stride = 0;
    fourcc = 0;
    frame_size = 0;
    slot_count = 0;
    frame_seq = 0;
  };
  payload = record { size = 1000; cell = λ _. 0 };
}

abbrev vid : ShmVideoBuffer
vid = record { region_len = 1128; frame_size = 0; slot_stride = 0; slot_count = 0 }
