-- ===== src/Fifo/Module.antt =====
-- Loading and unloading the module of rmiller-pa5/driver/scull.c, and opening and closing its device: the
-- calls of the kernel that take and give back. What loading makes of the ring is in Fifo.
use cs.Common.{
  ℕ, ◌<◌, ◌⊎◌, ◌^◌, ◌≡◌, ◌≢◌, refl, Option, none, some, List, [], ◌∷◌, ◌++◌, ◌==◌, if◌then◌else◌,
  arith, Bool-cases, Option-cases, inl, inr,
}
use cs.Chardev.{
  Kernel, KernelCall, takes_region, gives_region, adds, deletes, frees, is_negative, take_region,
  drop_region, regions, freed_memory, Devices, same_region,
}
use cs.Fifo.{Fifo}

-- `scull_major`, `scull_minor` and the address in `circleBuffer`, `none` for NULL.
pub record Module : Type 0 where
  pub major : ℕ
  pub minor : ℕ
  pub buffer : Option ℕ

-- Neither does anything.
unfoldable pub scull_open : Fifo → ℕ × Fifo
scull_open f = (0, f)

unfoldable pub scull_release : Fifo → ℕ × Fifo
scull_release f = (0, f)

-- `kfree(circleBuffer)`, which does nothing for NULL.
unfoldable pub free_buffer : Option ℕ → List (KernelCall ℕ)
free_buffer none = []
free_buffer (some p) = frees p ∷ []

unfoldable pub scull_cleanup_module : Kernel → Module → List (KernelCall ℕ)
scull_cleanup_module k m =
    free_buffer m.buffer ++ (deletes ∷ gives_region (k.mkdev m.major m.minor) ∷ [])

-- A call's result, the module, and the calls of the kernel.
pub record Loaded : Type 0 where
  pub result : ℕ
  pub state : Module
  pub calls : List (KernelCall ℕ)

-- `kmalloc` for the buffer, behind a cdev_add that has returned 0: without memory the module is cleaned up,
-- and the result is still that 0.
unfoldable pub make_buffer : Kernel → Option ℕ → ℕ → Module → Loaded
make_buffer k none dev m =
    let m' = record m { buffer = none } in
    record {
      result = 0;
      state = m';
      calls = takes_region dev ∷ adds dev ∷ scull_cleanup_module k m';
    }
make_buffer k (some p) dev m = record {
  result = 0;
  state = record m { buffer = some p };
  calls = takes_region dev ∷ adds dev ∷ [];
}

-- From cdev_add on, for a region that is registered.
unfoldable pub add_device : Kernel → Option ℕ → ℕ → Module → Loaded
add_device k memory dev m = if k.adding dev == 0 then make_buffer k memory dev m else record {
  result = k.adding dev;
  state = m;
  calls = takes_region dev ∷ scull_cleanup_module k m;
}

-- `memory` is what kmalloc gives.
unfoldable pub scull_init_module : Kernel → Option ℕ → Module → Loaded
scull_init_module k memory m =
    let (result, dev, major) = take_region k m.major m.minor in
    let m' = record m { major = major } in
    if is_negative result
    then record { result = result; state = m'; calls = [] }
    else add_device k memory dev m'

regions-cleanup :
    (k : Kernel) (m : Module) (dev : ℕ) (held : List ℕ)
    → k.mkdev m.major m.minor ≡ dev
    → regions (scull_cleanup_module k m) (dev ∷ held) ≡ held
unfolding regions drop_region scull_cleanup_module free_buffer
regions-cleanup k m dev held e = elim (Option-cases m.buffer) [
  | inl null ↦ rw (null, e) (ground arith)
  | inr (p, at_p) ↦ rw (at_p, e) (ground arith)
]

-- How loading ends, for what kmalloc gives.
LoadedWell : Kernel → Option ℕ → Loaded → Type 0
LoadedWell k memory r =
    ((r.result ≢ 0) × (regions r.calls [] ≡ []))
    ⊎ (((dev p : ℕ) × (r.result ≡ 0)
          × (memory ≡ some p)
          × (regions r.calls [] ≡ dev ∷ [])
          × (regions (scull_cleanup_module k r.state) (dev ∷ []) ≡ [])
          × (freed_memory (scull_cleanup_module k r.state) ≡ p ∷ []))
        ⊎ ((r.result ≡ 0) × (memory ≡ none) × (regions r.calls [] ≡ [])))

frees_one :
    (k : Kernel) (m : Module) (p : ℕ)
    → freed_memory (scull_cleanup_module k (record m { buffer = some p })) ≡ p ∷ []
unfolding freed_memory scull_cleanup_module free_buffer
frees_one k m p = refl

make_buffer_lem :
    (k : Kernel) (memory : Option ℕ) (dev : ℕ) (m : Module)
    → k.mkdev m.major m.minor ≡ dev
    → LoadedWell k memory (make_buffer k memory dev m)
unfolding LoadedWell make_buffer regions
make_buffer_lem k none dev m e =
    inr (inr (refl, refl, regions-cleanup k (record m { buffer = none }) dev [] e))
make_buffer_lem k (some p) dev m e = inr (
    inl (
      dev,
      p,
      refl,
      refl,
      refl,
      regions-cleanup k (record m { buffer = some p }) dev [] e,
      frees_one k m p,
    ))

add_device_lem :
    (k : Kernel) (memory : Option ℕ) (dev : ℕ) (m : Module)
    → k.mkdev m.major m.minor ≡ dev
    → LoadedWell k memory (add_device k memory dev m)
unfolding LoadedWell add_device regions
add_device_lem k memory dev m e = elim (Bool-cases (k.adding dev == 0)) [
  | inl well ↦ rw well (make_buffer_lem k memory dev m e)
  | inr fails ↦ rw fails (inl (ground arith, regions-cleanup k m dev [] e))
]

-- Loading the module ends in one of three ways, if the minor number has 20 bits and a number that the
-- kernel allocates is made of its major number and the minor number asked for. It fails and holds no
-- region of device numbers. Or there is memory for the buffer: it succeeds and holds one region, and
-- clean-up gives that region back and frees the buffer, once. Or there is no memory: it reports success
-- all the same, and holds no region.
pub scull_init-scull_cleanup :
    (k : Kernel) (memory : Option ℕ) (m : Module)
    → Devices k
    → m.minor < 2 ^ 20
    → let r = scull_init_module k memory m in
      ((r.result ≢ 0) × (regions r.calls [] ≡ []))
      ⊎ (((dev p : ℕ) × (r.result ≡ 0)
            × (memory ≡ some p)
            × (regions r.calls [] ≡ dev ∷ [])
            × (regions (scull_cleanup_module k r.state) (dev ∷ []) ≡ [])
            × (freed_memory (scull_cleanup_module k r.state) ≡ p ∷ []))
          ⊎ ((r.result ≡ 0) × (memory ≡ none) × (regions r.calls [] ≡ [])))
unfolding scull_init_module LoadedWell regions
scull_init-scull_cleanup k memory m h small =
    elim (Bool-cases (is_negative (take_region k m.major m.minor).0)) [
      | inl refused ↦ rw refused (inl (ground arith, refl))
      | inr taken ↦ rw taken (
          add_device_lem k memory (take_region k m.major m.minor).1
            (record m { major = (take_region k m.major m.minor).2 })
            (same_region k m.major m.minor h small))
    ]
