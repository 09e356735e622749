-- ===== src/Guest/Tests/Start.antt =====
-- The start of the guest at concrete answers.
use lalah.Base.{some, ◌≡◌, refl, true, none, [], ◌∷◌, arith, ok, err}
use lalah.Base.Bits.{is_power_of_two}
use lalah.Audio.Ring.{Shm}
use lalah.Video.Header.{video_magic, video_region}
use lalah.Video.Ring.{VideoShm}
use lalah.Guest.Ivshmem.{
  ctl_code, ioctl_request_size, ioctl_request_mmap, DriverCalls, map_ivshmem, file, enumerate,
  detail, open_file, request, refuse, close, is_open, same,
}
use lalah.Guest.Ivshmem.Handles.{MapEnds, map_ivshmem-MapEnds}
use lalah.Guest.Run.{World, Capture, capturing, run}
use lalah.Guest.Run.Routes.{now, later, Routed, run-Routed}
use lalah.Guest.Tests.{fresh, typed, understood, typed_runs}

request_size_code : ioctl_request_size ≡ 0x22_2004
unfolding ioctl_request_size ctl_code
request_size_code = refl

request_mmap_code : ioctl_request_mmap ≡ 0x22_2008
unfolding ioctl_request_mmap ctl_code
request_mmap_code = refl

-- A driver that answers the size, and refuses the mapping.
abbrev driver : DriverCalls
driver = record {
  get_class_devs = ok 40;
  enum_interfaces = none;
  required = 120;
  get_detail = λ len. none;
  create_file = ok 52;
  request_size = λ code. none;
  request_mmap = λ code config. err 5;
}

-- The file stays open, next to a file that was open before.
refused_mapping_leaks : map_ivshmem driver (file 8 ∷ []) ≡ some (err 5, file 52 ∷ file 8 ∷ [])
unfolding map_ivshmem enumerate detail open_file request refuse close is_open same
refused_mapping_leaks = refl

-- Without a device the list is destroyed.
no_device : map_ivshmem (record driver { enum_interfaces = some 259 }) [] ≡ some (err 259, [])
unfolding map_ivshmem enumerate detail refuse close is_open same
no_device = refl

map_ivshmem-MapEnds_example : MapEnds driver (file 8 ∷ []) (map_ivshmem driver (file 8 ∷ []))
map_ivshmem-MapEnds_example = map_ivshmem-MapEnds driver (file 8 ∷ [])

-- The ring is not prepared at the first attempt to attach.
abbrev raw : Shm
raw = record fresh { hdr = record fresh.hdr { magic = 0 } }

abbrev frames_ready : VideoShm
frames_ready = record {
  hdr = record {
    magic = video_magic;
    version = 1;
    header_size = 128;
    width = 0;
    height = 0;
    stride = 0;
    fourcc = 0;
    frame_size = 0;
    slot_count = 0;
    frame_seq = 0;
  };
  payload = record { size = 1000; cell = λ _. 0 };
}

abbrev world : World
world = record {
  region = ok 20_000_000;
  audio = raw ∷ fresh ∷ [];
  video = frames_ready ∷ [];
  keep_alive_starts = true;
}

run-Routed_example : (c : Capture) × (run understood world ≡ capturing c) × Routed understood c
unfolding is_power_of_two video_region
run-Routed_example =
    run-Routed world {len = 20_000_000} typed understood typed_runs refl
      (later (
        now (record {
          room = omega arith;
          is_magic = refl;
          is_version = refl;
          is_header_size = refl;
          pow = refl;
          fits = omega arith;
        })))
      (λ vbase vlen t e.
        now (record {
          room = ground arith;
          is_magic = refl;
          is_version = refl;
          is_header_size = refl;
        }))
