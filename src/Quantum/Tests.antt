-- ===== src/Quantum/Tests.antt =====
-- The theorems about pa4/driver/scull.c at two calling tasks.
use cs.Common.{ℕ, arith, ◌+◌, ◌*◌, ◌/◌, ◌≢◌, [], ◌∷◌, ◌⊎◌, ◌≡◌, true, some}
use cs.Quantum.{Driver, Ioctl, Caller, loaded, scull_ioctl, info}
use cs.Chardev.{Kernel, Devices, regions, freed_memory}
use cs.Quantum.Module.{Module, scull_init_module, scull_cleanup_module, init-cleanup}
use cs.Quantum.Laws.{Distinct, start, step, Reachable-Distinct}

-- Every command of the driver's type is the one that lists the caller.
abbrev only_info : Ioctl
only_info = record {
  ioc_type = λ cmd. b'k';
  ioc_nr = λ cmd. 7;
  label = λ cmd. some info;
  access_ok = λ arg cmd. true;
}

abbrev first_task : Caller
first_task = record {
  current = record { pid = 10; tgid = 10 };
  user_int = some 7;
  writable = true;
  kmalloc_ok = true;
  uncopied = 0;
}

abbrev second_task : Caller
second_task = record first_task { current = record { pid = 11; tgid = 10 } }

abbrev after_calls : Driver
after_calls =
    (scull_ioctl only_info first_task 0 0
      (scull_ioctl only_info second_task 0 0 loaded).driver).driver

Reachable-Distinct_example : Distinct after_calls.tasks
Reachable-Distinct_example =
    Reachable-Distinct only_info after_calls (step first_task 0 0 (step second_task 0 0 start))

-- The kernel's device numbers are 2^20 * major + minor, and it hands out major number 240.
abbrev small_kernel : Kernel
small_kernel = record {
  mkdev = λ major minor. 1048576 * major + minor;
  major_of = λ dev. dev / 1048576;
  registering = λ dev. 0;
  allocating = λ minor. (0, 1048576 * 240 + minor);
  adding = λ dev. 0;
}

small_kernel-Devices : Devices small_kernel
small_kernel-Devices = record { whole = λ minor h. omega arith }

abbrev unloaded : Module
unloaded = record { major = 0; minor = 3; driver = loaded }

init-cleanup_example :
    let r = scull_init_module small_kernel unloaded in
    ((r.result ≢ 0) × (regions r.calls [] ≡ []))
    ⊎ ((dev : ℕ) × (r.result ≡ 0)
        × (regions r.calls [] ≡ dev ∷ [])
        × (regions
              (scull_cleanup_module small_kernel (record r.state { driver = after_calls }))
              (dev ∷ [])
            ≡ [])
        × (freed_memory
              (scull_cleanup_module small_kernel (record r.state { driver = after_calls }))
            ≡ after_calls.tasks))
init-cleanup_example =
    init-cleanup small_kernel unloaded after_calls small_kernel-Devices (omega arith)
