-- ===== src/Host/Forward/Fifo.antt =====
-- The named pipe of packages/lalah-host/src/video.rs: `make_fifo`, `open_fifo_nonblock`, `set_pipe_size`.
-- What the kernel answers is an argument.
use Prim.Native.Char.{code}
use Prim.Native.String.{String}
use lalah.Base.{
  ℕ, ◌%◌, ◌^◌, Bool, false, ◌||◌, Option, none, some, ◌==◌, if◌then◌else◌, Result, ok, err,
}

-- Whether a text has a NUL in it, so that `CString::new` refuses it.
abbrev pub has_nul : String → Bool
has_nul String.[] = false
has_nul (String.◌∷◌ c s) = code c == 0 || has_nul s

pub data FifoError : Type 0 where
  interior_nul : FifoError
  os_error : (errno : ℕ) → FifoError

abbrev pub eexist : ℕ
eexist = 17

-- After `mkfifo`, which answers an error number if it fails.
abbrev pub made : Option ℕ → Result (Unit {0}) FifoError
made none = ok tt
made (some errno) = if errno == eexist then ok tt else err (os_error errno)

unfoldable pub make_fifo : (path : String) (mkfifo : Option ℕ) → Result (Unit {0}) FifoError
make_fifo path mkfifo = if has_nul path then err interior_nul else made mkfifo

-- `open` answers a descriptor, or `none` for a negative number.
unfoldable pub open_fifo_nonblock : (path : String) (open_answer : Option ℕ) → Option ℕ
open_fifo_nonblock path open_answer = if has_nul path then none else open_answer

-- The size that the pipe has, from what `F_SETPIPE_SZ` answers, and else `F_GETPIPE_SZ`.
abbrev pub size_or : (set get : Option ℕ) → ℕ
size_or (some r) get = r
size_or none (some r) = r
size_or none none = 0

-- The size goes to the kernel as a `c_int`, here by its bits; `none` is a negative answer.
unfoldable pub set_pipe_size : (size : ℕ) (set : ℕ → Option ℕ) (get : Option ℕ) → ℕ
set_pipe_size size set get = size_or (set (size % 2 ^ 32)) get
