-- ===== src/Guest/Dshow/MediaType.antt =====
-- The media types of packages/lalah-vm/src/dshow.rs: the ones that the grabbers ask for, the release of one
-- that DirectShow has filled in, and the text of a FourCC.
use lalah.Base.{
  ℕ, ◌*◌, ◌/◌, ◌%◌, ◌^◌, ◌≡◌, ◌≢◌, refl, true, false, Option, none, some, List, ◌++◌, ltb, ◌==◌,
  if◌then◌else◌, ne→==,
}
use lalah.Base.Texts.{codes, to_le_bytes, all_printable, trim_end, hex}
use lalah.Guest.Wasapi.{WaveFormat}
use lalah.Guest.Dshow.{AudioMediaType, size_of_wave_format}
use lalah.Host.Forward.Command.{fourcc_string}

-- `WAVEFORMATEX` as the audio grabber asks for it; the two products are in `u16` and `u32`.
abbrev pub wanted_format : WaveFormat
wanted_format = record {
  format_tag = 1;
  channels = 2;
  samples_per_sec = 48_000;
  avg_bytes_per_sec = 48_000 * (2 * 16 % 2 ^ 16 / 8) % 2 ^ 32;
  block_align = 2 * 16 % 2 ^ 16 / 8;
  bits_per_sample = 16;
  cb_size = 0;
  valid_bits_per_sample = 0;
  channel_mask = 0;
  sub_float = false;
}

abbrev pub wanted_audio : AudioMediaType
wanted_audio = record {
  is_wave_format = true;
  cb_format = size_of_wave_format;
  block = some wanted_format;
}

-- An `AM_MEDIA_TYPE` that is owned: the address of its format block, the block's length, and the object
-- behind `pUnk`.
pub record OwnedMediaType : Type 0 where
  pub pb_format : Option ℕ
  pub cb_format : ℕ
  pub unk : Option ℕ

abbrev pub freed_block : Option ℕ → (cb_format : ℕ) → Option ℕ
freed_block none cb_format = none
freed_block (some block) cb_format = if ltb 0 cb_format then some block else none

-- The media type after the call, the block that is freed, and the object that is released.
unfoldable pub free_media_type : OwnedMediaType → OwnedMediaType × Option ℕ × Option ℕ
free_media_type mt =
    (record mt { pb_format = none; cb_format = 0 }, freed_block mt.pb_format mt.cb_format, mt.unk)

-- A second call frees no block.
free_media_type_again : (mt : OwnedMediaType) → (free_media_type (free_media_type mt).0).1 ≡ none
unfolding free_media_type
free_media_type_again mt = refl

unfoldable pub fourcc_str : ℕ → List ℕ
fourcc_str fourcc =
    if fourcc == 0
    then codes "RGB"
    else if all_printable (to_le_bytes fourcc)
    then trim_end (to_le_bytes fourcc)
    else codes "0x" ++ hex 8 fourcc

-- The guest and the host print a code alike, unless it is 0.
fourcc_str-fourcc_string : (fourcc : ℕ) → fourcc ≢ 0 → fourcc_str fourcc ≡ fourcc_string fourcc
unfolding fourcc_str fourcc_string
fourcc_str-fourcc_string fourcc ne = rw (ne→== fourcc 0 ne) refl
