-- ===== src/Audio/Ring.antt =====
-- `ShmAudioBuffer` of packages/shared/src/lib.rs. Both processes map one region, `Shm`: an operation
-- takes it and gives it back. `none` is a panic or an access outside the mapping.
pub mod Index
pub mod Stream
pub mod Push
pub mod Window
pub mod Read
pub mod Spin
pub mod Attach
pub mod Frames
pub mod Roundtrip
use lalah.Base.{
  ℕ, zero, suc, ◌+◌, ◌-◌, ◌*◌, ◌/◌, min, max, bit_and, Bool, true, false, not, ◌||◌, ◌&&◌, Option,
  none, some, List, [], ◌++◌, ltb, leb, ◌==◌, if◌then◌else◌, ◌>>=◌, Result, ok, err, length, take,
  drop, replicate, wrapping_add, wrapping_sub, as_u32, ◌%◌,
}
use lalah.Base.Bits.{is_power_of_two}
use lalah.Memory.{Memory, volatile_copy_to, volatile_copy_from}
use lalah.Audio.Header.{
  ShmHeader, AudioFormat, from_u32, to_u32, size_of_header, shm_magic, shm_version,
}
use Prim.Native.String.{String}

-- The mapping: the header at its start, and the bytes behind it.
pub record Shm : Type 0 where
  pub hdr : ShmHeader
  pub payload : Memory

-- The handle. Its two pointers are the two parts of `Shm`.
pub record ShmAudioBuffer : Type 0 where
  pub cap : ℕ

unfoldable pub init : Shm → ℕ → ℕ → Option (ShmAudioBuffer × Shm)
init shm total_size cap =
    if not (ltb size_of_header total_size)
    then none
    else if not (is_power_of_two cap)
    then none
    else if not (leb cap (total_size - size_of_header))
    then none
    else some (record { cap = cap }, record shm { hdr = hdr })
  where
    hdr : ShmHeader
    hdr = record {
      magic = shm_magic;
      version = shm_version;
      header_size = as_u32 size_of_header;
      capacity = cap;
      sample_rate = 0;
      channels = 0;
      format = 0;
      frame_bytes = 0;
      tail = 0;
      seq = 0;
      head = 0;
    }

unfoldable pub attach : Shm → ℕ → Result ShmAudioBuffer String
attach shm total_size =
    if leb total_size size_of_header
    then err "region smaller than header"
    else if not (h.magic == shm_magic)
    then err "bad magic (region not initialized yet)"
    else if not (h.version == shm_version)
    then err "version mismatch"
    else if not (h.header_size == size_of_header)
    then err "ABI/header_size mismatch"
    else if cap == 0 || not (is_power_of_two cap) || ltb (total_size - size_of_header) cap
    then err "bad capacity"
    else ok (record { cap = cap })
  where
    h : ShmHeader
    h = shm.hdr

    cap : ℕ
    cap = h.capacity

unfoldable pub capacity : ShmAudioBuffer → ℕ
capacity me = me.cap

unfoldable pub pointers : Shm → ℕ × ℕ
pointers shm = (shm.hdr.head, shm.hdr.tail)

unfoldable pub set_format : Shm → AudioFormat → Shm
set_format shm fmt = record shm {
  hdr = record shm.hdr {
    sample_rate = fmt.sample_rate;
    channels = fmt.channels;
    format = to_u32 fmt.format;
    frame_bytes = fmt.frame_bytes;
  };
}

unfoldable pub format : Shm → Option AudioFormat
format shm =
    if h.frame_bytes == 0
    then none
    else from_u32 h.format >>= λ f. some (record {
      sample_rate = h.sample_rate;
      channels = h.channels;
      format = f;
      frame_bytes = h.frame_bytes;
    })
  where
    h : ShmHeader
    h = shm.hdr

unfoldable pub mask : ShmAudioBuffer → ℕ → ℕ
mask me pos = bit_and pos (me.cap - 1)

-- What a push keeps of its source: the newest `cap` bytes.
abbrev pub newest : ShmAudioBuffer → List ℕ → List ℕ
newest me src = if ltb me.cap (length src) then drop (length src - me.cap) src else src

-- The payload writes of a push at ring index `start`, in one piece or two.
unfoldable pub copy_in : ShmAudioBuffer → Memory → ℕ → List ℕ → Option Memory
copy_in me payload start src =
    if leb (start + length src) me.cap
    then volatile_copy_to payload start src
    else let first = me.cap - start in
      volatile_copy_to payload start (take first src) >>= λ p. volatile_copy_to p 0 (drop first src)

unfoldable pub push_overwrite : ShmAudioBuffer → Shm → List ℕ → Option Shm
unfolding mask copy_in
push_overwrite me shm src =
    if n == 0
    then some shm
    else copy_in me shm.payload (mask me tail) kept >>= λ p. some (record {
      hdr = record shm.hdr { tail = wrapping_add tail n; seq = wrapping_add s 2 };
      payload = p;
    })
  where
    kept : List ℕ
    kept = newest me src

    n : ℕ
    n = length kept

    tail : ℕ
    tail = shm.hdr.tail

    s : ℕ
    s = shm.hdr.seq

-- The position to read from and the number of bytes to deliver, from the header words loaded and
-- the caller's window and budget.
pub record Plan : Type 0 where
  pub head : ℕ
  pub want : ℕ

unfoldable pub plan : (frame_bytes out_len max_latency_bytes tail head : ℕ) → Plan
plan frame_bytes out_len max_latency_bytes tail head = record {
  head = head'';
  want = min quantum (tail - head'') / frame * frame;
}
  where
    frame : ℕ
    frame = max frame_bytes 1

    quantum : ℕ
    quantum = out_len / frame * frame

    head' : ℕ
    head' = if ltb tail head then tail else head

    budget : ℕ
    budget = max_latency_bytes / frame * frame

    head'' : ℕ
    head'' = if ltb budget (tail - head') then tail - budget else head'

-- The payload reads of a pass: `wu` bytes from ring index `start`, in one piece or two.
unfoldable pub copy_out : ShmAudioBuffer → Memory → ℕ → ℕ → Option (List ℕ)
copy_out me payload start wu =
    if leb (start + wu) me.cap
    then volatile_copy_from payload start wu
    else let first = me.cap - start in
      volatile_copy_from payload start first >>= λ a.
      volatile_copy_from payload 0 (wu - first) >>= λ b. some (a ++ b)

-- The recheck after the copy: the seqlock is unchanged and the writer has not lapped the reader.
unfoldable pub unchanged : ShmAudioBuffer → (s0 s1 tail2 head : ℕ) → Bool
unchanged me s0 s1 tail2 head = s1 == s0 && leb (wrapping_sub tail2 head) me.cap

-- One round of the loop: `continue`, or the buffer and the number of live bytes.
pub data Pass : Type 0 where
  retry : Pass
  done : Shm → List ℕ → ℕ → Pass

unfoldable pub read_pass : ShmAudioBuffer → Shm → (out_len max_latency_bytes : ℕ) → Option Pass
unfolding mask plan copy_out unchanged
read_pass me shm out_len max_latency_bytes =
    if h.seq % 2 == 1
    then some retry
    else copy_out me shm.payload (mask me p.head) p.want >>= λ bytes.
        if not (unchanged me h.seq h.seq h.tail p.head)
        then some retry
        else some (
            done (record shm { hdr = record h { head = p.head + p.want } })
              (bytes ++ replicate (out_len - p.want) 0) p.want)
  where
    h : ShmHeader
    h = shm.hdr

    p : Plan
    p = plan h.frame_bytes out_len max_latency_bytes h.tail h.head

-- The loop over a region that no producer changes meanwhile, for at most `fuel` rounds.
unfoldable pub read_quantum :
    ℕ → ShmAudioBuffer → Shm → (out_len max_latency_bytes : ℕ) → Option Pass
unfolding read_pass
read_quantum zero me shm out_len max_latency_bytes = some retry
read_quantum (suc fuel) me shm out_len max_latency_bytes =
    let again = read_quantum fuel me shm out_len max_latency_bytes in
    read_pass me shm out_len max_latency_bytes >>= λ r. elim r [
      | retry ↦ again
      | done shm' out wu ↦ some (done shm' out wu)
    ]
