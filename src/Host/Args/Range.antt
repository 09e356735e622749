-- ===== src/Host/Args/Range.antt =====
-- What the arguments of the host that are accepted imply, and the latency budget they give.
use Prim.Native.String.{String}
use mathlib.Core.Option.{some-injective, none-ne-some}
use native.Mathlib.Nat.{mod-eq_of_lt, mul_assoc, mul-le-mul_left}
use lalah.Base.{
  ℕ, ◌*◌, ◌/◌, ◌<◌, ◌≤◌, ◌≡◌, subst, ap, Option, none, some, List, [], ◌∷◌, arith, bind_inv,
  Option-cases, inl, inr, u32_mod, u64_mod,
}
use lalah.Audio.Header.{AudioFormat}
use lalah.Host.Startup.{latency_bytes}
use lalah.Host.Args.{HostArgs, host_defaults, set_option, parse_options, parse_host_args}
use lalah.Host.Args.Number.{parse, parse_below}

-- The numbers are words of their types, and those that must not be zero are not.
pub record IsInRange (a : HostArgs) : Type 0 where
  pub latency : a.latency_ms < u32_mod
  pub quantum : (0 < a.quantum) × (a.quantum < u32_mod)
  pub delay : a.video_read_delay_us < u64_mod
  pub pipe_size : (0 < a.video_pipe_size) × (a.video_pipe_size < u64_mod)

-- What is parsed, or 0.
abbrev value_of : Option ℕ → ℕ
value_of none = 0
value_of (some n) = n

value_below : (bound : ℕ) (val : String) → 0 < bound → value_of (parse bound val) < bound
value_below bound val pos = elim (Option-cases (parse bound val)) [
  | inl e ↦ rw e pos
  | inr (n, e) ↦ rw e (parse_below bound val n pos e)
]

set_option-IsInRange :
    (a b : HostArgs) (arg val : String) → IsInRange a → set_option a arg val ≡ some b → IsInRange b
unfolding set_option
set_option-IsInRange a b arg val r e =
    let small : value_of (parse u32_mod val) < u32_mod = value_below u32_mod val (omega arith) in
    let word : value_of (parse u64_mod val) < u64_mod = value_below u64_mod val (omega arith) in
    record {
      latency = ground (arith, small, r.latency);
      quantum = ground (arith, small, r.quantum);
      delay = ground (arith, word, r.delay);
      pipe_size = ground (arith, word, r.pipe_size);
    }

parse_options-IsInRange :
    (args : List String) (a b : HostArgs)
    → IsInRange a
    → parse_options a args ≡ some b
    → IsInRange b
unfolding parse_options
parse_options-IsInRange [] a b r e = subst IsInRange (some-injective a b e) r
parse_options-IsInRange (arg ∷ []) a b r e = absurd (none-ne-some b e)
parse_options-IsInRange (arg ∷ val ∷ rest) a b r e =
    let (a', e', e'') = bind_inv (set_option a arg val) (λ c. parse_options c rest) b e in
    parse_options-IsInRange rest a' b (set_option-IsInRange a a' arg val r e') e''

host_defaults-IsInRange : IsInRange host_defaults
host_defaults-IsInRange = record {
  latency = omega arith;
  quantum = omega arith;
  delay = omega arith;
  pipe_size = omega arith;
}

-- Three words whose product is a word are multiplied without a wrap.
latency_bytes_exact :
    (latency_ms : ℕ) (fmt : AudioFormat)
    → latency_ms < u32_mod
    → fmt.sample_rate * fmt.frame_bytes ≤ u32_mod
    → latency_bytes latency_ms fmt ≡ latency_ms * fmt.sample_rate * fmt.frame_bytes / 1000
unfolding latency_bytes
latency_bytes_exact latency_ms fmt small narrow = ap (λ t. t / 1000) (mod-eq_of_lt below)
  where
    below : latency_ms * fmt.sample_rate * fmt.frame_bytes < u64_mod
    below = omega (
      arith,
      mul_assoc latency_ms fmt.sample_rate fmt.frame_bytes,
      mul-le-mul_left latency_ms narrow,
      small,
    )

-- Arguments that the host accepts are words of their types, with a quantum and a pipe size above
-- 0; and for a format of at most 2^32 bytes a second the latency budget that they give is
-- computed without a wrap.
pub parse_host_args-IsInRange :
    (args : List String) (a : HostArgs) (fmt : AudioFormat)
    → parse_host_args args ≡ some a
    → fmt.sample_rate * fmt.frame_bytes ≤ u32_mod
    → IsInRange a
      × (latency_bytes a.latency_ms fmt ≡ a.latency_ms * fmt.sample_rate * fmt.frame_bytes / 1000)
unfolding parse_host_args
parse_host_args-IsInRange args a fmt e narrow =
    let r = parse_options-IsInRange args host_defaults a host_defaults-IsInRange e in
    (r, latency_bytes_exact a.latency_ms fmt r.latency narrow)
