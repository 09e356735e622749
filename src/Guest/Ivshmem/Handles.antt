-- ===== src/Guest/Ivshmem/Handles.antt =====
-- What `map_ivshmem` (ivshmem.rs) opens, uses, closes and leaves open.
use lalah.Base.{
  ℕ, ◌<◌, ◌≡◌, ◌⊎◌, inl, inr, refl, true, none, some, Result, ok, err, List, ◌∷◌, ltb, ltb→lt,
  eq→==,
}
use lalah.Base.Checks.{check_lem, check_cases, if_cases, check_value_cases}
use lalah.Guest.Ivshmem.{
  ioctl_request_size, ioctl_request_mmap, ivshmem_cache_cached, IvshmemMmap, IvshmemRegion, Handle,
  devs, file, same, using, close, is_open, DriverCalls, Mapping, mapped, request, refuse, open_file,
  size_of_cb_size, detail, enumerate, map_ivshmem, drop,
}

abbrev pub mmap_answer : DriverCalls → Result IvshmemMmap ℕ
mmap_answer c = c.request_mmap ioctl_request_mmap (record { cache_mode = ivshmem_cache_cached })

abbrev pub region_of : (h : ℕ) → IvshmemMmap → IvshmemRegion
region_of h m = record { handle = file h; base = m.ptr; len = m.size }

-- One of the calls up to `CreateFileW` has failed.
abbrev pub Fails : DriverCalls → (e : ℕ) → Type 0
Fails c e =
    (c.get_class_devs ≡ err e)
    ⊎ ((c.enum_interfaces ≡ some e)
        ⊎ ((c.get_detail c.required ≡ some e) ⊎ (c.create_file ≡ err e)))

-- A region with the device's file open, which `drop` closes; an error with nothing more open than to begin
-- with; an error of the driver, behind which the file stays open; or a store behind the detail buffer.
pub data MapEnds (c : DriverCalls) (hs : List Handle) (r : Mapping) : Type 0 where
  maps :
      (h : ℕ) (m : IvshmemMmap)
      → c.create_file ≡ ok h
      → mmap_answer c ≡ ok m
      → r ≡ some (ok (region_of h m), file h ∷ hs)
      → drop (region_of h m) (file h ∷ hs) ≡ some hs
      → MapEnds c hs r
  refuses : (e : ℕ) → Fails c e → r ≡ some (err e, hs) → MapEnds c hs r
  leaks :
      (h e : ℕ)
      → c.create_file ≡ ok h
      → (c.request_size ioctl_request_size ≡ some e) ⊎ (mmap_answer c ≡ err e)
      → r ≡ some (err e, file h ∷ hs)
      → MapEnds c hs r
  overruns : c.enum_interfaces ≡ none → c.required < size_of_cb_size → r ≡ none → MapEnds c hs r

same_refl : (h : Handle) → same h h ≡ true
unfolding same
same_refl (devs a) = eq→== a a refl
same_refl (file a) = eq→== a a refl

close_last : (h : Handle) (hs : List Handle) → close h (h ∷ hs) ≡ some hs
unfolding close
close_last h hs = rw (same_refl h) refl

-- The file is opened before the device list is destroyed.
close_below :
    (a b : ℕ) (hs : List Handle) → close (devs a) (file b ∷ devs a ∷ hs) ≡ some (file b ∷ hs)
unfolding close same
close_below a b hs = rw (eq→== a a refl) refl

is_open_last : (h : Handle) (hs : List Handle) → is_open h (h ∷ hs) ≡ true
unfolding is_open
is_open_last h hs = rw (same_refl h) refl

-- The handle opened last can be used.
using_last :
    (P : Mapping → Type 0) (h : Handle) (hs : List Handle) (rest : Mapping)
    → P rest
    → P (using h (h ∷ hs) rest)
using_last P h hs rest p = rw (is_open_last h hs) p

module _ (c : DriverCalls) (hs : List Handle) where
  mapped-Ends :
      (h : ℕ) (a : Result IvshmemMmap ℕ)
      → c.create_file ≡ ok h
      → mmap_answer c ≡ a
      → MapEnds c hs (mapped (file h) (file h ∷ hs) a)
  unfolding drop
  mapped-Ends h (ok m) opened e = maps h m opened e refl (close_last (file h) hs)
  mapped-Ends h (err x) opened e = leaks h x opened (inr e) refl

  request-Ends : (h : ℕ) → c.create_file ≡ ok h → MapEnds c hs (request c (file h) (file h ∷ hs))
  unfolding request
  request-Ends h opened = using_last (MapEnds c hs) (file h) hs _ (
      check_lem (MapEnds c hs) (c.request_size ioctl_request_size) _ _
        (λ e failed. leaks h e opened (inl failed) refl)
        (using_last (MapEnds c hs) (file h) hs _ (mapped-Ends h (mmap_answer c) opened refl)))

  refuse-Ends : (d e : ℕ) → Fails c e → MapEnds c hs (refuse (devs d) (devs d ∷ hs) e)
  unfolding refuse
  refuse-Ends d e failed = rw (close_last (devs d) hs) (refuses e failed refl)

  open_file-Ends :
      (d : ℕ) (o : Result ℕ ℕ)
      → c.create_file ≡ o
      → MapEnds c hs (open_file c (devs d) (devs d ∷ hs) o)
  unfolding open_file
  open_file-Ends d (ok h) opened = rw (close_below d h hs) (request-Ends h opened)
  open_file-Ends d (err e) failed =
      rw (close_last (devs d) hs) (refuses e (inr (inr (inr failed))) refl)

  detail-Ends : (d : ℕ) → c.enum_interfaces ≡ none → MapEnds c hs (detail c (devs d) (devs d ∷ hs))
  unfolding detail
  detail-Ends d found = using_last (MapEnds c hs) (devs d) hs _ (
      if_cases (MapEnds c hs) (ltb c.required size_of_cb_size)
        (λ short. overruns found (ltb→lt c.required size_of_cb_size short) refl)
        (λ _. using_last (MapEnds c hs) (devs d) hs _ (
          check_lem (MapEnds c hs) (c.get_detail c.required) _ _
            (λ e failed. refuse-Ends d e (inr (inr (inl failed))))
            (open_file-Ends d c.create_file refl))))

  enumerate-Ends : (d : ℕ) → MapEnds c hs (enumerate c (devs d) (devs d ∷ hs))
  unfolding enumerate
  enumerate-Ends d = using_last (MapEnds c hs) (devs d) hs _ (
      check_cases (MapEnds c hs) c.enum_interfaces _ _
        (λ e failed. refuse-Ends d e (inr (inl failed))) (detail-Ends d))

  -- Whatever SetupAPI and the driver answer, and whatever handles are open before, `map_ivshmem`
  -- ends in one of four ways. It returns the region of the driver's answer with the device's file
  -- open besides, which `drop` closes; or an error of one of the calls up to `CreateFileW`, with
  -- the same handles open as before; or an error of one of the two control requests, with the
  -- file left open; or, where a device is found and the first detail call asks for less than four
  -- bytes, it faults. In the first three no call takes a handle that is not open, none is closed
  -- twice, and the device list is destroyed.
  pub map_ivshmem-MapEnds : MapEnds c hs (map_ivshmem c hs)
  unfolding map_ivshmem
  map_ivshmem-MapEnds =
      check_value_cases (MapEnds c hs) c.get_class_devs _ _
        (λ e failed. refuses e (inl failed) refl) (λ d _. enumerate-Ends d)
