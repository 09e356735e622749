-- ===== src/Guest/Ivshmem.antt =====
-- packages/lalah-vm/src/ivshmem.rs: the control codes, and `map_ivshmem` over the handles that the
-- process has open. The answers of SetupAPI and of the driver are arguments.
pub mod Handles
use Prim.Native.Nat.{bit_or}
use lalah.Base.Checks.{check, check_value}
use lalah.Base.{
  List, [], ◌∷◌, ltb, ◌==◌, if◌then◌else◌, ◌>>=◌, ◌||◌, ℕ, ◌*◌, ◌%◌, ◌^◌, Bool, true, false, Option,
  none, some, Result, ok, err, u32_mod,
}

abbrev pub file_device_unknown : ℕ
file_device_unknown = 0x22

abbrev pub method_buffered : ℕ
method_buffered = 0

abbrev pub file_any_access : ℕ
file_any_access = 0

-- Shifts in `u32` lose the bits above.
unfoldable pub ctl_code : (device function method access : ℕ) → ℕ
ctl_code device function method access =
    bit_or
      (bit_or (bit_or (device * 2 ^ 16 % u32_mod) (access * 2 ^ 14 % u32_mod))
        (function * 2 ^ 2 % u32_mod))
      method

unfoldable pub ioctl_request_size : ℕ
unfolding ctl_code
ioctl_request_size = ctl_code file_device_unknown 0x801 method_buffered file_any_access

unfoldable pub ioctl_request_mmap : ℕ
unfolding ctl_code
ioctl_request_mmap = ctl_code file_device_unknown 0x802 method_buffered file_any_access

abbrev pub ivshmem_cache_cached : ℕ
ivshmem_cache_cached = 1

pub record IvshmemMmapConfig : Type 0 where
  pub cache_mode : ℕ

pub record IvshmemMmap : Type 0 where
  pub peer_id : ℕ
  pub size : ℕ
  pub ptr : ℕ
  pub vectors : ℕ

-- The two kinds of handle, a device list and a file, each numbered on its own.
pub data Handle : Type 0 where
  devs : ℕ → Handle
  file : ℕ → Handle

unfoldable pub same : Handle → Handle → Bool
same (devs a) (devs b) = a == b
same (devs a) (file b) = false
same (file a) (devs b) = false
same (file a) (file b) = a == b

-- `SetupDiDestroyDeviceInfoList` and `CloseHandle`, over the handles that the process has open. To close
-- one that is not open is a fault, `none`.
unfoldable pub close : Handle → List Handle → Option (List Handle)
unfolding same
close h [] = none
close h (k ∷ ks) =
    let rest = close h ks in if same h k then some ks else rest >>= λ ks'. some (k ∷ ks')

unfoldable pub is_open : Handle → List Handle → Bool
unfolding same
is_open h [] = false
is_open h (k ∷ ks) = same h k || is_open h ks

-- A call that takes a handle, which is a fault if it is not open.
abbrev pub using {ℓ} : {A : Type ℓ} → Handle → List Handle → Option A → Option A
using h hs rest = if is_open h hs then rest else none

pub record IvshmemRegion : Type 0 where
  pub handle : Handle
  pub base : ℕ
  pub len : ℕ

-- What the calls answer: `none`, or the error; the two that open a handle give its number. `required` is
-- what the first detail call leaves, 0 unless it asks for a buffer; `get_detail` takes the buffer's
-- length, and the two requests take the control code.
pub record DriverCalls : Type 0 where
  pub get_class_devs : Result ℕ ℕ
  pub enum_interfaces : Option ℕ
  pub required : ℕ
  pub get_detail : (len : ℕ) → Option ℕ
  pub create_file : Result ℕ ℕ
  pub request_size : (code : ℕ) → Option ℕ
  pub request_mmap : (code : ℕ) → IvshmemMmapConfig → Result IvshmemMmap ℕ

-- The result with the handles that are open at the return; `none` is a fault.
abbrev pub Mapping : Type 0
Mapping = Option (Result IvshmemRegion ℕ × List Handle)

abbrev pub returns_error : List Handle → (e : ℕ) → Mapping
returns_error hs e = some (err e, hs)

abbrev pub mapped : (handle : Handle) → List Handle → Result IvshmemMmap ℕ → Mapping
mapped handle hs (ok m) = some (ok (record { handle = handle; base = m.ptr; len = m.size }), hs)
mapped handle hs (err e) = returns_error hs e

-- The two control requests, each with its `?`.
unfoldable pub request : DriverCalls → (handle : Handle) → List Handle → Mapping
request c handle hs = using handle hs (
    check (c.request_size ioctl_request_size) (returns_error hs) (
      using handle hs (
        mapped handle hs
          (c.request_mmap ioctl_request_mmap (record { cache_mode = ivshmem_cache_cached })))))

-- An error, behind the destruction of the device list.
unfoldable pub refuse : (hdev : Handle) → List Handle → (e : ℕ) → Mapping
unfolding close
refuse hdev hs e = close hdev hs >>= λ hs'. returns_error hs' e

-- The device list is destroyed before the answer of `CreateFileW` is looked at.
unfoldable pub open_file :
    DriverCalls → (hdev : Handle) → List Handle → (create_file : Result ℕ ℕ) → Mapping
unfolding close request
open_file c hdev hs (ok h) = close hdev (file h ∷ hs) >>= λ hs'. request c (file h) hs'
open_file c hdev hs (err e) = close hdev hs >>= λ hs'. returns_error hs' e

-- `size_of::<u32>()`: the field `cbSize` at the start of the detail buffer.
abbrev pub size_of_cb_size : ℕ
size_of_cb_size = 4

-- The two detail calls; `cbSize` is stored in between, in a buffer of the length that the first asks for.
unfoldable pub detail : DriverCalls → (hdev : Handle) → List Handle → Mapping
unfolding is_open refuse open_file
detail c hdev hs = using hdev hs (
    if ltb c.required size_of_cb_size
    then none
    else using hdev hs
        (check (c.get_detail c.required) (refuse hdev hs) (open_file c hdev hs c.create_file)))

unfoldable pub enumerate : DriverCalls → (hdev : Handle) → List Handle → Mapping
unfolding is_open refuse detail
enumerate c hdev hs = using hdev hs (check c.enum_interfaces (refuse hdev hs) (detail c hdev hs))

-- With `hs` open to begin with.
unfoldable pub map_ivshmem : DriverCalls → List Handle → Mapping
unfolding enumerate
map_ivshmem c hs =
    check_value c.get_class_devs (returns_error hs) (λ h. enumerate c (devs h) (devs h ∷ hs))

-- `Drop` of the region.
unfoldable pub drop : IvshmemRegion → List Handle → Option (List Handle)
unfolding close
drop me hs = close me.handle hs
