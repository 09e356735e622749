-- ===== src/Lib.antt =====
-- lalah carries the audio of a Windows guest, and with an option its raw video frames, to a Linux
-- host through one IVSHMEM mapping. The guest (packages/lalah-vm) is the only producer, the host
-- (packages/lalah-host) the only consumer, and packages/shared/src/lib.rs is the contract of
-- both: an audio ring behind a header at the start of the mapping, and behind the first 16 MiB a
-- ring of video frame slots. Nothing else passes between the two processes.
--
-- The files and the code:
--
-- Base, Base/*: Boolean tests on the native numbers, lists, `u64` and `u32` arithmetic with its
-- wrap-around, powers of two (`is_power_of_two`, `leading_zeros`) and bit masks.
--
-- Memory, Memory/*: the mapped payload as bytes, with `volatile_copy_to`, `volatile_copy_from`,
-- `volatile_write_frame` and `volatile_copy_from_words` of lib.rs. An access outside the payload
-- is a fault, `none`. The word-wise copies take the payload pointer as 8-byte aligned, which the
-- headers' sizes make it.
--
-- Audio/Header, Audio/Ring: `ShmHeader`, the formats, and every operation of `ShmAudioBuffer`:
-- `init`, `attach`, `pointers`, `set_format`, `format`, `mask`, `push_overwrite`, `read_quantum`.
-- Audio/Ring/* proves them: Stream states what a ring holds, Push and Read that a push and a read
-- implement it, Window the arithmetic of a read, Frames the alignment, Spin when a read never
-- returns.
--
-- Audio/Race: `push_overwrite` and `read_quantum` against each other, one step for each access to
-- shared memory, in any interleaving. Video/Race: `push_frame` and `read_frame` likewise, with
-- the word-wise copies taken byte by byte, which allows more interleavings than the code has.
-- Accesses take effect in program order (sequential consistency); what `Relaxed` order would
-- allow beyond that is not modelled. Writes, Alone and Progress bound the steps of a call, Rounds
-- says when a read is refused. A push enters the race only while `seq`, `tail` and `frame_seq`
-- stay below 2^64.
--
-- Audio/Publish, Video/Publish: the stores of `init`, `set_format` and `set_geometry` one by one,
-- and the loads of `attach`, `format` and `refresh_geometry`, each of which sees the header after
-- some number of those stores, and no fewer than the load before it.
--
-- Video/Header, Video/Ring, Video/Ring/*: `ShmVideoHeader`, `align_up_64`, `video_region`, and
-- every operation of `ShmVideoBuffer`: `init`, `attach`, `set_geometry`, `refresh_geometry`,
-- `frame_count`, `push_frame`, `read_frame`; in these files a read is taken while no frame is
-- pushed.
--
-- Host/Args, Host/Args/*: the arguments of lalah-host/src/main.rs, with `str::parse`.
-- Host/Startup, Host/Startup/*: the layout that its `run` chooses. Host/Run, Host/Run/Ends: that
-- `run` as a whole, with its page loop and its wait for the format, over the region at each look.
-- Host/Playback: the realtime callback of playback.rs, in Statistics its statistics thread, and
-- in Setup the whole of `run_playback`. Host/Forward, Host/Forward/*: `write_frame` and the loop
-- of `run_video` in video.rs, in Fifo the named pipe, in Thread the whole of `run_video`, and in
-- Command its texts, with the kernel's answers as arguments.
--
-- Guest/Args, Guest/Args/Options: the arguments of lalah-vm/src/main.rs. Guest/Run: its `run`,
-- with the region at each attempt to attach as an argument. Guest/Ivshmem: `map_ivshmem` of
-- ivshmem.rs over the list of the handles that are open, where a call on a handle that is not
-- open, or closing it, is a fault. Guest/KeepAlive: `VideoKeepAlive` of video.rs, its owner, its
-- worker and the graph as a step relation. Guest/Devices: how `open_graph` of video.rs and the
-- two searches of dshow.rs choose a device. Guest/Wide: the UTF-16 texts handed to Windows,
-- `wide` of dshow.rs. Guest/Wasapi, Guest/Wasapi/*: the format probe, the capture loop and, in
-- Exclusive, the whole of `capture_exclusive` of wasapi.rs. Guest/Dshow, Guest/Dshow/*: the
-- grabber callbacks, the media type parsers, in Graph `capture_dshow_audio` of dshow.rs, and in
-- MediaType what it asks for and releases. What Windows answers is an argument everywhere: `none`
-- or an error for a call, a list of those for calls in a row.
--
-- Session: the host's `init`, the guest's `attach` and `capture_exclusive`, and the host's
-- `format` and `read_quantum`, one after the other over one region. Session/Frames: the same for
-- the frame ring, with the guest's `set_geometry` and a list of pushed buffers, and the host's
-- `refresh_geometry` and `read_frame`. Session/Watched, Session/Forward, Session/Thread: the
-- host's video thread while the guest pushes frames. Session/Playback, Session/Listening:
-- `run_playback` and its callback, cycle after cycle, while the guest pushes; Session/Gapless,
-- while the host keeps up.
--
-- Audio/Tests/Unit, Video/Tests/Unit: the unit tests of packages/shared/src/lib.rs and the one of
-- packages/lalah-host/tests/cross_mapping.rs, each a Boolean run of the model. Base/Layout: the
-- offsets of the fields of the two headers, which are `repr(C)`.
--
-- Bounds and fuel. Numbers are natural numbers; where the source wraps, the wrap is written out,
-- and the theorems name the bound under which nothing wraps (a stream shorter than 2^64 bytes).
-- The loop of `read_quantum` takes fuel: one round is enough when no push is under way and the
-- backlog or the budget fits the ring, and no fuel is enough in the two cases of Audio/Ring/Spin.
-- The page loop of the host's `run` takes fuel too, one round more than the mapping has pages.
-- All other loops are structural.
--
-- Not modelled: the calls of the operating system themselves (memmap2, SetupAPI, COM, DirectShow,
-- PipeWire, pipes), sleeping and printing. The floating-point period of wasapi.rs and the lower
-- case of a device's name are arguments. Error messages are modelled without the numbers in them.
-- The callback of playback.rs leaves out the chunk's constant offset and its stride, and the
-- panic on a buffer without data planes. The host's video thread reads each frame over one
-- snapshot of the region; a read while frames are pushed is in Video/Race.
pub mod Base
pub mod Memory
pub mod Audio
pub mod Video
pub mod Host
pub mod Guest
pub mod Session
