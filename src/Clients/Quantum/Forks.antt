-- ===== src/Clients/Quantum/Forks.antt =====
-- The tests p and t of pa4/src/scull.c: calls for tasks' data in any order of the processes.
use cs.Common.{
  ℕ, subst, ◌≡◌, refl, ap, ◌∙◌, true, ◌||◌, inl, none, some, List, [], ◌∷◌, length, replicate, take,
  arith,
}
use cs.Fs.Layout.Codec.{All}
use cs.Clients.Merge.{flatten, any, Merges, any-Merges, All-Merges, length-Merges}
use cs.Quantum.{Task, Driver, Caller, same_task, is_listed, execute, scull_ioctl, info}
use cs.Quantum.Laws.{Distinct, list_caller-Distinct, is_listed-list_caller}
use cs.Clients.Quantum.{Machine, task_line, ioctl, infos, calls_of, fork_test, show_if_ok}
use cs.Clients.Quantum.Run.{Works, lists, ioctl_wired}

-- For a caller that the kernel has memory for and whose data is copied.
unfoldable pub Served : Caller → Type 0
Served c = (c.kmalloc_ok ≡ true) × (c.uncopied ≡ 0)

-- One call for the task's data: it lists the caller and shows a line.
info_lem :
    (m : Machine) (limit : ℕ) (c : Caller) (d : Driver)
    → Works m limit
    → Served c
    → Distinct d.tasks
    → (d' : Driver) × (ioctl m c info m.address 0 d ≡ record { ret = 0; q = 0; driver = d' })
      × Distinct d'.tasks
      × (d'.quantum ≡ d.quantum)
      × ((x : Task) → is_listed x d'.tasks ≡ (is_listed x d.tasks || same_task c.current x))
unfolding Served ioctl execute
info_lem m limit c d h served fresh =
    let c' = record c { user_int = some 0 } in
    let (ts, listed) = lists c' d served.0 served.1 in
    let answer : scull_ioctl m.io c' (m.number info) m.address d
        ≡ record { result = inl 0; user = none; driver = record d { tasks = ts } } =
      ioctl_wired m limit c' info m.address d h h.address ∙ listed in
    (
      record d { tasks = ts },
      ap
            (λ a. record {
              ret = m.libc a.result;
              q = elim a.user [ none ↦ 0 | some v ↦ v ];
              driver = a.driver;
            })
            answer
          ∙ ap (λ r. record { ret = r; q = 0; driver = record d { tasks = ts } })
              (h.libc 0 (omega arith)),
      subst (λ a. Distinct a.driver.tasks) listed (list_caller-Distinct c' d fresh),
      refl,
      λ x.
          subst (λ a. is_listed x a.driver.tasks ≡ (is_listed x d.tasks || same_task c.current x))
            listed (is_listed-list_caller c' x d served.0),
    )

-- Any run of such calls.
infos_lem :
    (m : Machine) (limit : ℕ) (cs : List Caller) (d : Driver)
    → Works m limit
    → All Served cs
    → Distinct d.tasks
    → ((infos m cs d).shown ≡ replicate (length cs) task_line)
      × Distinct (infos m cs d).driver.tasks
      × ((infos m cs d).driver.quantum ≡ d.quantum)
      × ((x : Task)
          → is_listed x (infos m cs d).driver.tasks
            ≡ (is_listed x d.tasks || any (λ c. same_task c.current x) cs))
unfolding infos show_if_ok any replicate
infos_lem m limit [] d h served fresh = (refl, fresh, refl, λ x. ground arith)
infos_lem m limit (c ∷ cs) d h served fresh =
    let (d', called, fresh', same, listed) = info_lem m limit c d h served.0 fresh in
    let (shown, apart, kept, all) = infos_lem m limit cs d' h served.1 fresh' in
    (
      rw called (ap (λ l. task_line ∷ l) shown),
      rw called apart,
      rw called (kept ∙ same),
      λ x. rw called (ground (arith, all x, listed x)),
    )

-- The test p, in whatever order the children's calls happen: with a scheduler that keeps each
-- child's own order, on a machine where nothing fails, the kernel has memory for each child and no
-- task is listed twice before, one line is shown for each call, no task is listed twice
-- afterwards, the quantum stays, and the tasks listed are those listed before and the children.
pub fork_test-Merges :
    (m : Machine) (limit : ℕ) (d : Driver)
    → Works m limit
    → Merges (calls_of (take 4 m.forks)) (m.order (calls_of (take 4 m.forks)))
    → All Served (flatten (calls_of (take 4 m.forks)))
    → Distinct d.tasks
    → let calls = flatten (calls_of (take 4 m.forks)) in
      let r = fork_test m d in
      (r.shown ≡ replicate (length calls) task_line)
      × Distinct r.driver.tasks
      × (r.driver.quantum ≡ d.quantum)
      × ((x : Task)
          → is_listed x r.driver.tasks
            ≡ (is_listed x d.tasks || any (λ c. same_task c.current x) calls))
unfolding fork_test
fork_test-Merges m limit d h order served fresh =
    let ps = calls_of (take 4 m.forks) in
    let cs = m.order ps in
    let (shown, apart, kept, all) =
      infos_lem m limit cs d h (All-Merges Served ps cs order served) fresh in
    (
      shown ∙ ap (λ n. replicate n task_line) (length-Merges ps cs order),
      apart,
      kept,
      λ x.
          all x
          ∙ ap (λ b. is_listed x d.tasks || b)
              (any-Merges (λ c. same_task c.current x) ps cs order),
    )
