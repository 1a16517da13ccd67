-- ===== src/Fifo/ModuleTests.antt =====
-- Loading and unloading rmiller-pa5/driver/scull.c with a small kernel.
use cs.Common.{ℕ, ◌+◌, ◌*◌, ◌/◌, ◌⊎◌, ◌≡◌, ◌≢◌, Option, none, some, [], ◌∷◌, arith}
use cs.Chardev.{Kernel, Devices, regions, freed_memory}
use cs.Fifo.Module.{Module, scull_init_module, scull_cleanup_module, scull_init-scull_cleanup}

-- The kernel's device numbers are 2^20 * major + minor, and it hands out major number 240.
abbrev small_kernel : Kernel
small_kernel = record {
  mkdev = λ major minor. 1048576 * major + minor;
  major_of = λ dev. dev / 1048576;
  registering = λ dev. 0;
  allocating = λ minor. (0, 1048576 * 240 + minor);
  adding = λ dev. 0;
}

small_kernel-Devices : Devices small_kernel
small_kernel-Devices = record { whole = λ minor h. omega arith }

abbrev unloaded : Module
unloaded = record { major = 0; minor = 0; buffer = none }

-- The address of the new buffer.
abbrev given : Option ℕ
given = some 4096

scull_init-scull_cleanup_example :
    let r = scull_init_module small_kernel given unloaded in
    ((r.result ≢ 0) × (regions r.calls [] ≡ []))
    ⊎ (((dev p : ℕ) × (r.result ≡ 0)
          × (given ≡ some p)
          × (regions r.calls [] ≡ dev ∷ [])
          × (regions (scull_cleanup_module small_kernel r.state) (dev ∷ []) ≡ [])
          × (freed_memory (scull_cleanup_module small_kernel r.state) ≡ p ∷ []))
        ⊎ ((r.result ≡ 0) × (given ≡ none) × (regions r.calls [] ≡ [])))
scull_init-scull_cleanup_example =
    scull_init-scull_cleanup small_kernel given unloaded small_kernel-Devices (omega arith)
