-- ===== src/Host/Tests/Run.antt =====
-- A run of the host over a mapping of three pages at most, up to the playback.
use lalah.Base.{◌≡◌, refl, none, some, [], ◌∷◌, ok}
use lalah.Base.Bits.{is_power_of_two}
use lalah.Base.Zeros.{leading_zeros}
use lalah.Audio.Header.{SampleFormat, from_u32}
use lalah.Audio.Ring.{Shm, init, format}
use lalah.Host.Args.{host_defaults}
use lalah.Host.Startup.{start, prev_power_of_two, ring_capacity, latency_bytes}
use lalah.Host.Run.{touch_pages, wait_format, HostWorld, playing, run}

abbrev blank : Shm
blank = record {
  hdr = record {
    magic = 0;
    version = 0;
    header_size = 0;
    capacity = 0;
    sample_rate = 0;
    channels = 0;
    format = 0;
    frame_bytes = 0;
    tail = 0;
    seq = 0;
    head = 0;
  };
  payload = record { size = 9000; cell = λ _. 0 };
}

-- The region at the second look: the guest has published 48 kHz mono.
abbrev published : Shm
published = record blank {
  hdr = record blank.hdr { sample_rate = 48_000; channels = 1; format = 0; frame_bytes = 2 };
}

abbrev world : HostWorld
world = record {
  mapping = ok 9000;
  shm = blank;
  vshm = record {
    hdr = record {
      magic = 0;
      version = 0;
      header_size = 0;
      width = 0;
      height = 0;
      stride = 0;
      fourcc = 0;
      frame_size = 0;
      slot_count = 0;
      frame_seq = 0;
    };
    payload = record { size = 0; cell = λ _. 0 };
  };
  spawn_error = none;
  looks = blank ∷ published ∷ [];
}

plays_after_two_looks :
    run 4 host_defaults world
    ≡ some (
      0 ∷ 4096 ∷ 8192 ∷ [],
      playing (record {
        fmt = record {
          sample_rate = 48_000;
          channels = 1;
          format = SampleFormat.s16_le;
          frame_bytes = 2;
        };
        ring = record { cap = 8192 };
        max_latency_bytes = 1920;
        quantum = 256;
        video = none;
      }),
    )
unfolding run touch_pages start ring_capacity prev_power_of_two leading_zeros init is_power_of_two
    wait_format format from_u32 latency_bytes
plays_after_two_looks = refl
