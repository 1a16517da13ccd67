-- ===== src/Quantum.antt =====
-- pa4/driver/scull.c: a character device whose ioctl commands read and set a number, the quantum,
-- and keep a list of the tasks that asked for their own data.
pub mod Laws
pub mod Module
mod Tests
use cs.Common.{
  ℕ, ◌%◌, ◌^◌, Bool, true, false, not, ◌&&◌, ◌||◌, ◌⊎◌, inl, inr, Option, none, some, List, [], ◌∷◌,
  ◌++◌, ltb, ◌==◌, if◌then◌else◌,
}

-- `struct node` without its link: what identifies a task.
pub record Task : Type 0 where
  pub pid : ℕ
  pub tgid : ℕ

-- `scull_quantum`, an int's bit pattern, and the list from `head` on.
pub record Driver : Type 0 where
  pub quantum : ℕ
  pub tasks : List Task

-- The labels of the switch: SCULL_IOCRESET, then S, T, G, Q, X, H and I before QUANTUM.
pub data Command : Type 0 where
  reset set_quantum tell get_quantum query exchange shift info : Command

-- What <linux/ioctl.h> and the kernel say of a command's number and of an address.
pub record Ioctl : Type 0 where
  pub ioc_type : ℕ → ℕ
  pub ioc_nr : ℕ → ℕ
  pub label : ℕ → Option Command
  pub access_ok : ℕ → ℕ → Bool

-- The calling task, the int at the user's address (`none` where it cannot be read), whether that
-- address can be written, whether kmalloc succeeds, and how many bytes copy_to_user misses.
pub record Caller : Type 0 where
  pub current : Task
  pub user_int : Option ℕ
  pub writable : Bool
  pub kmalloc_ok : Bool
  pub uncopied : ℕ

pub data Errno : Type 0 where
  enotty efault enomem : Errno

-- A call's result, the int that it wrote to the user, and the driver's state afterwards.
pub record Answer : Type 0 where
  pub result : ℕ ⊎ Errno
  pub user : Option ℕ
  pub driver : Driver

-- `pid` and `tgid` both equal.
unfoldable pub same_task : Task → Task → Bool
same_task a b = a.pid == b.pid && a.tgid == b.tgid

-- The loop that looks for the caller.
unfoldable pub is_listed : Task → List Task → Bool
is_listed t [] = false
is_listed t (u ∷ us) = same_task u t || is_listed t us

-- `__get_user(scull_quantum, arg)` and `__put_user(value, arg)`; a read that fails stores 0.
unfoldable pub get_user : Caller → Driver → (ℕ ⊎ Errno) × Driver
get_user c d = elim c.user_int [
  | none ↦ (inr efault, record d { quantum = 0 })
  | some v ↦ (inl 0, record d { quantum = v })
]

unfoldable pub put_user : Caller → ℕ → Driver → Answer
put_user c v d =
    if c.writable
    then record { result = inl 0; user = some v; driver = d }
    else record { result = inr efault; user = none; driver = d }

-- The result of copy_to_user is returned as it is: the number of bytes that it did not copy.
unfoldable pub list_caller : Caller → Driver → Answer
list_caller c d =
    if is_listed c.current d.tasks
    then record { result = inl c.uncopied; user = none; driver = d }
    else if not c.kmalloc_ok
    then record { result = inr enomem; user = none; driver = d }
    else record {
      result = inl c.uncopied;
      user = none;
      driver = record d { tasks = d.tasks ++ (c.current ∷ []) };
    }

-- `if (retval == 0) retval = __put_user(tmp, arg);`
unfoldable pub swap_user : Caller → ℕ → (ℕ ⊎ Errno) × Driver → Answer
swap_user c old (inl ok, d) = put_user c old d
swap_user c old (inr e, d) = record { result = inr e; user = none; driver = d }

-- The switch; `SCULL_QUANTUM` is 4000, and an unsigned long is cut to an int.
unfoldable pub execute : Caller → ℕ → Command → Driver → Answer
unfolding swap_user
execute c arg reset d = record { result = inl 0; user = none; driver = record d { quantum = 4000 } }
execute c arg set_quantum d =
    let (result, d') = get_user c d in record { result = result; user = none; driver = d' }
execute c arg tell d = record {
  result = inl 0;
  user = none;
  driver = record d { quantum = arg % 2 ^ 32 };
}
execute c arg get_quantum d = put_user c d.quantum d
execute c arg query d = record { result = inl d.quantum; user = none; driver = d }
execute c arg exchange d = swap_user c d.quantum (get_user c d)
execute c arg shift d = record {
  result = inl d.quantum;
  user = none;
  driver = record d { quantum = arg % 2 ^ 32 };
}
execute c arg info d = list_caller c d

unfoldable pub scull_ioctl : Ioctl → Caller → ℕ → ℕ → Driver → Answer
scull_ioctl io c cmd arg d =
    if not (io.ioc_type cmd == b'k') || ltb 7 (io.ioc_nr cmd)
    then record { result = inr enotty; user = none; driver = d }
    else if not (io.access_ok arg cmd)
    then record { result = inr efault; user = none; driver = d }
    else (elim (io.label cmd) [
      | none ↦ record { result = inr enotty; user = none; driver = d }
      | some k ↦ execute c arg k d
    ])

-- The state that `scull_init_module` starts from: the initial values of the static variables.
abbrev pub loaded : Driver
loaded = record { quantum = 4000; tasks = [] }
