-- ===== src/Quantum/Laws.antt =====
-- The list of tasks and the quantum of pa4/driver/scull.c over any calls.
use cs.Common.{
  ℕ, ◌≡◌, refl, subst, sym, true, false, not, ◌||◌, inl, inr, some, List, [], ◌∷◌, ◌++◌, arith, ltb,
  ◌==◌, Bool-cases, Option-cases,
}
use cs.Quantum.{
  Task, Driver, Command, Ioctl, Caller, same_task, is_listed, get_user, put_user, list_caller,
  swap_user, execute, scull_ioctl, loaded, reset, set_quantum, tell, get_quantum, query, exchange,
  shift, info,
}

-- No task is listed twice.
unfoldable pub Distinct : List Task → Type 0
Distinct [] = Unit
Distinct (t ∷ ts) = (is_listed t ts ≡ false) × Distinct ts

-- A driver that calls lead to, from the one just loaded.
pub data Reachable (io : Ioctl) : Driver → Type 0 where
  start : Reachable io loaded
  step :
      {d : Driver} (c : Caller) (cmd arg : ℕ)
      → Reachable io d
      → Reachable io (scull_ioctl io c cmd arg d).driver

same_task_comm : (a b : Task) → same_task a b ≡ same_task b a
unfolding same_task
same_task_comm a b = ground arith

is_listed-append :
    (x t : Task) (ts : List Task) → is_listed x (ts ++ (t ∷ [])) ≡ (is_listed x ts || same_task t x)
unfolding is_listed
is_listed-append x t [] = ground arith
is_listed-append x t (u ∷ us) = ground (arith, is_listed-append x t us)

Distinct-append :
    (t : Task) (ts : List Task) → Distinct ts → is_listed t ts ≡ false → Distinct (ts ++ (t ∷ []))
unfolding Distinct is_listed
Distinct-append t [] h e = (refl, tt)
Distinct-append t (u ∷ us) h e = (
  ground (arith, is_listed-append u t us, same_task_comm u t, h.0),
  Distinct-append t us h.1 (ground arith),
)

pub list_caller-Distinct :
    (c : Caller) (d : Driver) → Distinct d.tasks → Distinct (list_caller c d).driver.tasks
unfolding list_caller
list_caller-Distinct c d h = elim (Bool-cases (is_listed c.current d.tasks)) [
  | inl old ↦ rw old h
  | inr new ↦ elim (Bool-cases c.kmalloc_ok) [
    | inl ok ↦ rw (new, ok) (Distinct-append c.current d.tasks h new)
    | inr out ↦ rw (new, out) h
  ]
]

exchange_tasks :
    (c : Caller) (d : Driver) → (swap_user c d.quantum (get_user c d)).driver.tasks ≡ d.tasks
unfolding swap_user get_user put_user
exchange_tasks c d = elim (Option-cases c.user_int) [
  | inl fault ↦ rw fault refl
  | inr (v, read) ↦
      rw read (elim (Bool-cases c.writable) [ inl ok ↦ rw ok refl | inr denied ↦ rw denied refl ])
]

execute-Distinct :
    (c : Caller) (arg : ℕ) (k : Command) (d : Driver)
    → Distinct d.tasks
    → Distinct (execute c arg k d).driver.tasks
unfolding execute get_user put_user
execute-Distinct c arg reset d h = h
execute-Distinct c arg set_quantum d h = elim (Option-cases c.user_int) [
  | inl fault ↦ rw fault h
  | inr (v, read) ↦ rw read h
]
execute-Distinct c arg tell d h = h
execute-Distinct c arg get_quantum d h = elim (Bool-cases c.writable) [
  | inl ok ↦ rw ok h
  | inr fault ↦ rw fault h
]
execute-Distinct c arg query d h = h
execute-Distinct c arg exchange d h = subst Distinct (sym (exchange_tasks c d)) h
execute-Distinct c arg shift d h = h
execute-Distinct c arg info d h = list_caller-Distinct c d h

ioctl-Distinct :
    (io : Ioctl) (c : Caller) (cmd arg : ℕ) (d : Driver)
    → Distinct d.tasks
    → Distinct (scull_ioctl io c cmd arg d).driver.tasks
unfolding scull_ioctl
ioctl-Distinct io c cmd arg d h =
    elim (Bool-cases (not (io.ioc_type cmd == b'k') || ltb 7 (io.ioc_nr cmd))) [
      | inl foreign ↦ rw foreign h
      | inr own ↦ elim (Bool-cases (io.access_ok arg cmd)) [
        | inr denied ↦ rw (own, denied) h
        | inl good ↦ elim (Option-cases (io.label cmd)) [
          | inl no_label ↦ rw (own, good, no_label) h
          | inr (k, label) ↦ rw (own, good, label) (execute-Distinct c arg k d h)
        ]
      ]
    ]

-- Whatever commands are called, by whatever tasks and with whatever failures, no task is listed twice.
pub Reachable-Distinct : (io : Ioctl) (d : Driver) → Reachable io d → Distinct d.tasks
unfolding Distinct
Reachable-Distinct io d start = tt
Reachable-Distinct io d (step c cmd arg r) =
    ioctl-Distinct io c cmd arg _ (Reachable-Distinct io _ r)

-- Tasks that are the same are listed alike.
is_listed-same_task :
    (t x : Task) (ts : List Task) → same_task t x ≡ true → is_listed t ts ≡ is_listed x ts
unfolding is_listed same_task
is_listed-same_task t x [] e = refl
is_listed-same_task t x (u ∷ us) e = ground (arith, is_listed-same_task t x us)

-- After a task asks for its data, where the kernel has memory for a node, exactly the tasks listed
-- before and that task are listed.
pub is_listed-list_caller :
    (c : Caller) (x : Task) (d : Driver)
    → c.kmalloc_ok ≡ true
    → is_listed x (list_caller c d).driver.tasks ≡ (is_listed x d.tasks || same_task c.current x)
unfolding list_caller
is_listed-list_caller c x d ok = elim (Bool-cases (is_listed c.current d.tasks)) [
  | inl old ↦ rw old (ground (arith, is_listed-same_task c.current x d.tasks))
  | inr new ↦ rw (new, ok) (is_listed-append x c.current d.tasks)
]

-- Exchanging the quantum with a number that the user can read and write, and then exchanging again
-- with what was handed back, leaves the driver as it was and the user with that number.
pub execute-execute :
    (c : Caller) (arg v : ℕ) (d : Driver)
    → c.user_int ≡ some v
    → c.writable ≡ true
    → let a = execute c arg exchange d in
      execute (record c { user_int = a.user }) arg exchange a.driver
      ≡ record { result = inl 0; user = some v; driver = d }
unfolding execute swap_user get_user put_user
execute-execute c arg v d read ok = rw (read, ok) refl
