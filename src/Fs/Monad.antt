-- ===== src/Fs/Monad.antt =====
-- The file system's global variables (pmeunier-project/fs.c, lines 33 to 74) as one state, and the
-- effects of its functions: an int result or a negated error number, `exit(1)`, and the failures
-- that end the process. `disk` is the image device of image.c.
pub mod Laws
use cs.Common.{
  ℕ, ◌+◌, ◌≡◌, refl, Bool, true, false, Option, none, some, List, ◌⊎◌, inl, inr, get_elem?, set,
  length, ltb, if◌then◌else◌,
}
use cs.Device.{Device, Reply, success, e_unavail, aborted, overflowed, image_read, image_write}
use cs.Fs.Layout.{Inode}

-- A global pointer to an array is the array; `dirty` holds NULL (`none`) or a block's bytes.
pub record State : Type 0 where
  pub disk : Device
  pub inode_map : List ℕ
  pub inode_map_base : ℕ
  pub inodes : List Inode
  pub n_inodes : ℕ
  pub inode_base : ℕ
  pub block_map : List ℕ
  pub block_map_base : ℕ
  pub n_blocks : ℕ
  pub root_inode : ℕ
  pub dirty : List (Option (List ℕ))

-- The error numbers that the functions return negated; `eperm` is the -1 of `parse`.
pub data Errno : Type 0 where
  enoent enotdir eisdir eexist einval enospc enotempty eperm : Errno

-- Why the process ends: `exit(1)`, a failed `assert` of the device, or an access outside an array
-- or to a null pointer or unset memory, which C leaves undefined.
pub data Halt : Type 0 where
  exited asserted undefined_access : Halt

pub data Outcome (A : Type 0) : Type 0 where
  done : A → State → Outcome A
  fail : Errno → State → Outcome A
  halt : Halt → State → Outcome A

abbrev pub M : Type 0 → Type 0
M A = State → Outcome A

abbrev pub pure : {A : Type 0} → A → M A
pure a s = done a s

abbrev pub throw : {A : Type 0} → Errno → M A
throw e s = fail e s

abbrev pub crash : {A : Type 0} → M A
crash s = halt undefined_access s

infixl 5 ◌>>=◌ ◌>>◌
abbrev pub ◌>>=◌ : {A B : Type 0} → M A → (A → M B) → M B
◌>>=◌ m f s = elim (m s) [ done a s' ↦ f a s' | fail e s' ↦ fail e s' | halt w s' ↦ halt w s' ]

abbrev pub ◌>>◌ : {B : Type 0} → M (Unit {0}) → M B → M B
m >> k = m >>= λ _. k

-- The caller keeps the int and tests its sign later.
abbrev pub attempt : {A : Type 0} → M A → M (A ⊎ Errno)
attempt m s = elim (m s) [
  | done a s' ↦ done (inl a) s'
  | fail e s' ↦ done (inr e) s'
  | halt w s' ↦ halt w s'
]

abbrev pub gets : {A : Type 0} → (State → A) → M A
gets f s = done (f s) s

abbrev pub modify : (State → State) → M (Unit {0})
modify f s = done tt (f s)

-- `if (test) return -e;`
abbrev pub fail_if : Bool → Errno → M (Unit {0})
fail_if true e s = fail e s
fail_if false e s = done tt s

abbrev pub from_reply : {A : Type 0} → Reply A → (A → State → State) → M A
from_reply (success a) f s = done a (f a s)
from_reply e_unavail f s = halt exited s
from_reply aborted f s = halt asserted s
from_reply overflowed f s = crash s

-- `if (disk->ops->read(disk, b, n, buf) < 0) exit(1);`
unfoldable pub read_or_exit : ℕ → ℕ → M (List ℕ)
read_or_exit b n s = from_reply (image_read s.disk b n) (λ bytes t. t) s

-- `if (disk->ops->write(disk, b, n, buf) < 0) exit(1);`
unfoldable pub write_or_exit : ℕ → ℕ → List ℕ → M (Unit {0})
write_or_exit b n buf =
    (λ s. from_reply (image_write s.disk b n buf) (λ disk t. record t { disk = disk }) s) >>= λ _.
    pure tt

-- `inodes[i]`, read and written.
unfoldable pub inode_at : ℕ → M Inode
inode_at i s = elim (get_elem? s.inodes i) [ none ↦ halt undefined_access s | some v ↦ done v s ]

unfoldable pub set_inode : ℕ → Inode → M (Unit {0})
set_inode i v s =
    if ltb i (length s.inodes)
    then done tt (record s { inodes = set s.inodes i v })
    else halt undefined_access s

-- `ptrs[k]` of an array of block numbers.
unfoldable pub elem_at : {A : Type 0} → List A → ℕ → M A
elem_at xs k s = elim (get_elem? xs k) [ none ↦ halt undefined_access s | some v ↦ done v s ]
