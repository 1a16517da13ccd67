-- ===== src/Chardev.antt =====
-- Registering a character device with the kernel, as pa4/driver/scull.c and rmiller-pa5/driver/scull.c do
-- it in the same words. An int result is its bit pattern.
use cs.Common.{
  ℕ, ◌<◌, ◌^◌, ◌≡◌, refl, Bool, List, [], ◌∷◌, leb, ◌==◌, if◌then◌else◌, Bool-cases, inl, inr,
}

-- MKDEV and MAJOR, and what register_chrdev_region, alloc_chrdev_region (with the device that it gives)
-- and cdev_add return.
pub record Kernel : Type 0 where
  pub mkdev : ℕ → ℕ → ℕ
  pub major_of : ℕ → ℕ
  pub registering : ℕ → ℕ
  pub allocating : ℕ → ℕ × ℕ
  pub adding : ℕ → ℕ

-- The calls of the kernel that take something or give it back: a region of one device, the character
-- device, memory of kind A.
pub data KernelCall (A : Type 0) : Type 0 where
  takes_region gives_region adds : ℕ → KernelCall A
  deletes : KernelCall A
  frees : A → KernelCall A

abbrev pub is_negative : ℕ → Bool
is_negative r = leb (2 ^ 31) r

-- The device's region for `scull_major` and `scull_minor`: the result, the device and the major number.
unfoldable pub take_region : Kernel → ℕ → ℕ → ℕ × ℕ × ℕ
take_region k major minor =
    if major == 0
    then ((k.allocating minor).0, (k.allocating minor).1, k.major_of (k.allocating minor).1)
    else (k.registering (k.mkdev major minor), k.mkdev major minor, major)

-- A region is given back by its number.
unfoldable pub drop_region : ℕ → List ℕ → List ℕ
drop_region d [] = []
drop_region d (e ∷ es) = if d == e then es else e ∷ drop_region d es

module _ {A : Type 0} where
  -- The regions held after calls.
  unfoldable pub regions : List (KernelCall A) → List ℕ → List ℕ
  regions [] held = held
  regions (takes_region d ∷ cs) held = regions cs (d ∷ held)
  regions (gives_region d ∷ cs) held = regions cs (drop_region d held)
  regions (adds d ∷ cs) held = regions cs held
  regions (deletes ∷ cs) held = regions cs held
  regions (frees t ∷ cs) held = regions cs held

  -- What is freed.
  unfoldable pub freed_memory : List (KernelCall A) → List A
  freed_memory [] = []
  freed_memory (takes_region d ∷ cs) = freed_memory cs
  freed_memory (gives_region d ∷ cs) = freed_memory cs
  freed_memory (adds d ∷ cs) = freed_memory cs
  freed_memory (deletes ∷ cs) = freed_memory cs
  freed_memory (frees t ∷ cs) = t ∷ freed_memory cs

-- What the kernel says of device numbers.
pub record Devices (k : Kernel) : Type 0 where
  pub whole :
      (minor : ℕ)
      → minor < 2 ^ 20
      → k.mkdev (k.major_of (k.allocating minor).1) minor ≡ (k.allocating minor).1

-- The region that is registered is the one of the major number kept.
pub same_region :
    (k : Kernel) (major minor : ℕ)
    → Devices k
    → minor < 2 ^ 20
    → k.mkdev (take_region k major minor).2 minor ≡ (take_region k major minor).1
unfolding take_region
same_region k major minor h small = elim (Bool-cases (major == 0)) [
  | inl dynamic ↦ rw dynamic (h.whole minor small)
  | inr given ↦ rw given refl
]
