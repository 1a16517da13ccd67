-- ===== src/Quantum/Module.antt =====
-- Loading and unloading the module of pa4/driver/scull.c, and opening and closing its device. An int result
-- is its bit pattern; what is printed is left out.
use cs.Common.{
  ℕ, ◌<◌, append-nil, ◌⊎◌, ◌^◌, ◌≡◌, ◌≢◌, refl, ap, ◌∙◌, List, [], ◌∷◌, ◌++◌, ◌==◌, if◌then◌else◌,
  arith, Bool-cases, inl, inr,
}
use cs.Chardev.{
  Kernel, KernelCall, takes_region, gives_region, adds, deletes, frees, is_negative, take_region,
  drop_region, regions, freed_memory, Devices, same_region,
}
use cs.Quantum.{Task, Driver}

-- `scull_major` and `scull_minor`, and the rest of the state.
pub record Module : Type 0 where
  pub major : ℕ
  pub minor : ℕ
  pub driver : Driver

-- Neither does anything.
unfoldable pub scull_open : Driver → ℕ × Driver
scull_open d = (0, d)

unfoldable pub scull_release : Driver → ℕ × Driver
scull_release d = (0, d)

-- The loop over the list.
unfoldable pub free_nodes : List Task → List (KernelCall Task)
free_nodes [] = []
free_nodes (t ∷ ts) = frees t ∷ free_nodes ts

unfoldable pub scull_cleanup_module : Kernel → Module → List (KernelCall Task)
scull_cleanup_module k m =
    free_nodes m.driver.tasks ++ (deletes ∷ gives_region (k.mkdev m.major m.minor) ∷ [])

-- A call's result, the module, and the calls of the kernel that took or gave back something.
pub record Loaded : Type 0 where
  pub result : ℕ
  pub state : Module
  pub calls : List (KernelCall Task)

-- From cdev_add on, for a region that is registered.
unfoldable pub add_device : Kernel → ℕ → Module → Loaded
add_device k dev m =
    let result = k.adding dev in
    if result == 0
    then record { result = 0; state = m; calls = takes_region dev ∷ adds dev ∷ [] }
    else record { result = result; state = m; calls = takes_region dev ∷ scull_cleanup_module k m }

unfoldable pub scull_init_module : Kernel → Module → Loaded
scull_init_module k m =
    let (result, dev, major) = take_region k m.major m.minor in
    let m' = record m { major = major } in
    if is_negative result
    then record { result = result; state = m'; calls = [] }
    else add_device k dev m'

regions-free_nodes :
    (ts : List Task) (cs : List (KernelCall Task)) (held : List ℕ)
    → regions (free_nodes ts ++ cs) held ≡ regions cs held
unfolding regions free_nodes
regions-free_nodes [] cs held = refl
regions-free_nodes (t ∷ ts) cs held = regions-free_nodes ts cs held

freed_memory-free_nodes :
    (ts : List Task) (cs : List (KernelCall Task))
    → freed_memory (free_nodes ts ++ cs) ≡ ts ++ freed_memory cs
unfolding freed_memory free_nodes
freed_memory-free_nodes [] cs = refl
freed_memory-free_nodes (t ∷ ts) cs = ap (λ r. t ∷ r) (freed_memory-free_nodes ts cs)

regions-cleanup :
    (k : Kernel) (m : Module) (dev : ℕ) (held : List ℕ)
    → k.mkdev m.major m.minor ≡ dev
    → regions (scull_cleanup_module k m) (dev ∷ held) ≡ held
unfolding regions drop_region scull_cleanup_module
regions-cleanup k m dev held e =
    regions-free_nodes m.driver.tasks (deletes ∷ gives_region (k.mkdev m.major m.minor) ∷ [])
      (dev ∷ held)
    ∙ rw e (ground arith)

freed_memory-cleanup :
    (k : Kernel) (m : Module) → freed_memory (scull_cleanup_module k m) ≡ m.driver.tasks
unfolding freed_memory scull_cleanup_module
freed_memory-cleanup k m =
    freed_memory-free_nodes m.driver.tasks (deletes ∷ gives_region (k.mkdev m.major m.minor) ∷ [])
    ∙ append-nil m.driver.tasks

-- How loading ends: with nothing held, or with the region of one device and clean-up ahead.
LoadedWell : Kernel → Driver → Loaded → Type 0
LoadedWell k d r =
    ((r.result ≢ 0) × (regions r.calls [] ≡ []))
    ⊎ ((dev : ℕ) × (r.result ≡ 0)
        × (regions r.calls [] ≡ dev ∷ [])
        × (regions (scull_cleanup_module k (record r.state { driver = d })) (dev ∷ []) ≡ [])
        × (freed_memory (scull_cleanup_module k (record r.state { driver = d })) ≡ d.tasks))

add_device_lem :
    (k : Kernel) (dev : ℕ) (m : Module) (d : Driver)
    → k.mkdev m.major m.minor ≡ dev
    → LoadedWell k d (add_device k dev m)
unfolding LoadedWell add_device regions
add_device_lem k dev m d e = elim (Bool-cases (k.adding dev == 0)) [
  | inl well ↦ rw well (
      inr (
        dev,
        refl,
        refl,
        regions-cleanup k (record m { driver = d }) dev [] e,
        freed_memory-cleanup k (record m { driver = d }),
      ))
  | inr fails ↦ rw fails (inl (ground arith, regions-cleanup k m dev [] e))
]

-- Loading the module either fails and holds no region of device numbers, or succeeds and holds one; then,
-- whatever state the driver has come to, clean-up gives that region back and frees the nodes of the list,
-- each once and in order, if the minor number has 20 bits and a number that the kernel allocates
-- is made of its major number and the minor number asked for.
pub init-cleanup :
    (k : Kernel) (m : Module) (d : Driver)
    → Devices k
    → m.minor < 2 ^ 20
    → let r = scull_init_module k m in
      ((r.result ≢ 0) × (regions r.calls [] ≡ []))
      ⊎ ((dev : ℕ) × (r.result ≡ 0)
          × (regions r.calls [] ≡ dev ∷ [])
          × (regions (scull_cleanup_module k (record r.state { driver = d })) (dev ∷ []) ≡ [])
          × (freed_memory (scull_cleanup_module k (record r.state { driver = d })) ≡ d.tasks))
unfolding scull_init_module LoadedWell regions
init-cleanup k m d h small = elim (Bool-cases (is_negative (take_region k m.major m.minor).0)) [
  | inl refused ↦ rw refused (inl (ground arith, refl))
  | inr taken ↦ rw taken (
      add_device_lem k (take_region k m.major m.minor).1
        (record m { major = (take_region k m.major m.minor).2 }) d
        (same_region k m.major m.minor h small))
]
