-- ===== src/Clients/Quantum.antt =====
-- pa4/src/scull.c: the program that calls the ioctl device, one command a run. What it prints stands for
-- each printf; the fields of a printed `struct task_info` are the kernel's. An int that
-- no one reads is 0.
pub mod Run
pub mod Register
pub mod Forks
use cs.Common.{
  ℕ, zero, suc, Bool, true, false, ◌⊎◌, inl, inr, Option, none, some, List, [], ◌∷◌, ◌++◌, ◌==◌,
  if◌then◌else◌, take, map, get_or,
}
use cs.Quantum.{
  Driver, Command, Ioctl, Caller, Errno, Answer, scull_ioctl, reset, set_quantum, tell, get_quantum,
  query, exchange, shift, info,
}
use cs.Clients.Arguments.{Parsed, exits, accepted, quantum_command}

-- What a child process or a thread is to the driver at its two calls.
pub record Child : Type 0 where
  pub first : Caller
  pub second : Caller

-- The system around a run: the commands' numbers (_IO and its kin), what the C library makes of a call's
-- result (an int's bit pattern) and the kernel of an int argument, the scheduler, atoi, the device, the
-- program's own task with the address of its variables and what stands for an argument that is left out,
-- what each fork gives (`none` where it fails), and each pthread_create. malloc succeeds.
pub record Machine : Type 0 where
  pub io : Ioctl
  pub number : Command → ℕ
  pub libc : ℕ ⊎ Errno → ℕ
  pub widen : ℕ → ℕ
  pub order : List (List Caller) → List Caller
  pub atoi : List ℕ → ℕ
  pub opens : Bool
  pub closes : Bool
  pub self : Caller
  pub address : ℕ
  pub stray : ℕ
  pub forks : List (Option Child)
  pub threads : List (Option Child)

pub data Shown : Type 0 where
  quantum_reset quantum_set task_line : Shown
  quantum_is exchanged shifted : ℕ → Shown

-- `ret`, or the status from `main`; what was printed on standard output; and the driver.
pub record Done : Type 0 where
  pub ret : ℕ
  pub shown : List Shown
  pub driver : Driver

-- abort() is called, or a thread is joined that was not created.
pub data Finish : Type 0 where
  ended : Done → Finish
  abort_called stray_join : Finish

-- A call's int result, the int at the address behind the call, and the driver.
pub record Called : Type 0 where
  pub ret : ℕ
  pub q : ℕ
  pub driver : Driver

-- `ioctl(fd, cmd, arg)` with the int `q` at the address.
unfoldable pub ioctl : Machine → Caller → Command → ℕ → ℕ → Driver → Called
ioctl m c k arg q d =
    let a = scull_ioctl m.io (record c { user_int = some q }) (m.number k) arg d in
    record { ret = m.libc a.result; q = elim a.user [ none ↦ q | some v ↦ v ]; driver = a.driver }

-- `if (ret == 0) printf(...)`
unfoldable pub show_if_ok : ℕ → Shown → Driver → Done
show_if_ok ret line d = record { ret = ret; shown = if ret == 0 then line ∷ [] else []; driver = d }

-- The calls for the task's data, in the order in which they happen.
unfoldable pub infos : Machine → List Caller → Driver → Done
infos m [] d = record { ret = 0; shown = []; driver = d }
infos m (c ∷ cs) d =
    let r = ioctl m c info m.address 0 d in
    let one = show_if_ok r.ret task_line r.driver in
    let rest = infos m cs r.driver in
    record { ret = 0; shown = one.shown ++ rest.shown; driver = rest.driver }

-- What each process calls: a fork that fails has none.
unfoldable pub calls_of : List (Option Child) → List (List Caller)
calls_of [] = []
calls_of (none ∷ cs) = calls_of cs
calls_of (some c ∷ cs) = (c.first ∷ c.second ∷ []) ∷ calls_of cs

unfoldable pub all_created : List (Option Child) → Bool
all_created [] = true
all_created (none ∷ cs) = false
all_created (some c ∷ cs) = all_created cs

-- The cases of do_op with one call.
unfoldable pub one_call : Machine → Command → ℕ → Driver → Done
one_call m reset n d =
    let r = ioctl m m.self reset m.stray 0 d in show_if_ok r.ret quantum_reset r.driver
one_call m query n d =
    let r = ioctl m m.self query m.stray 0 d in
    record { ret = 0; shown = quantum_is r.ret ∷ []; driver = r.driver }
one_call m get_quantum n d =
    let r = ioctl m m.self get_quantum m.address 0 d in show_if_ok r.ret (quantum_is r.q) r.driver
one_call m tell n d =
    let r = ioctl m m.self tell (m.widen n) 0 d in show_if_ok r.ret quantum_set r.driver
one_call m set_quantum n d =
    let r = ioctl m m.self set_quantum m.address n d in show_if_ok r.ret quantum_set r.driver
one_call m exchange n d =
    let r = ioctl m m.self exchange m.address n d in show_if_ok r.ret (exchanged r.q) r.driver
one_call m shift n d =
    let r = ioctl m m.self shift (m.widen n) 0 d in
    record { ret = 0; shown = shifted r.ret ∷ []; driver = r.driver }
one_call m info n d =
    let r = ioctl m m.self info m.address 0 d in show_if_ok r.ret task_line r.driver

-- The letters of the switch that make one call.
abbrev pub letter : Command → ℕ
letter reset = b'R'
letter query = b'Q'
letter get_quantum = b'G'
letter tell = b'T'
letter set_quantum = b'S'
letter exchange = b'X'
letter shift = b'H'
letter info = b'i'

unfoldable pub command_of : ℕ → Option Command
command_of c =
    if c == b'R'
    then some reset
    else if c == b'Q'
    then some query
    else if c == b'G'
    then some get_quantum
    else if c == b'T'
    then some tell
    else if c == b'S'
    then some set_quantum
    else if c == b'X'
    then some exchange
    else if c == b'H'
    then some shift
    else if c == b'i'
    then some info
    else none

-- The cases p and t: four forks or four threads, each with two calls.
unfoldable pub fork_test : Machine → Driver → Done
fork_test m d = infos m (m.order (calls_of (take 4 m.forks))) d

unfoldable pub thread_test : Machine → Driver → Finish
thread_test m d =
    if all_created (take 4 m.threads)
    then ended (infos m (m.order (calls_of (take 4 m.threads))) d)
    else stray_join

unfoldable pub do_op : Machine → ℕ → ℕ → Driver → Finish
do_op m cmd n d =
    if cmd == b'p'
    then ended (fork_test m d)
    else if cmd == b't'
    then thread_test m d
    else (elim (command_of cmd) [ none ↦ abort_called | some k ↦ ended (one_call m k n d) ])

-- How `main` ends behind do_op: a close that fails, or a result that is not 0, gives EXIT_FAILURE.
unfoldable pub closing : Bool → Finish → Finish
closing closes (ended r) =
    ended (record r { ret = if closes then (if r.ret == 0 then 0 else 1) else 1 })
closing closes abort_called = abort_called
closing closes stray_join = stray_join

unfoldable pub main_parsed : Machine → Parsed → Driver → Finish
main_parsed m (exits status) d = ended (record { ret = status; shown = []; driver = d })
main_parsed m (accepted cmd n) d =
    if m.opens
    then closing m.closes (do_op m cmd n d)
    else ended (record { ret = 1; shown = []; driver = d })

unfoldable pub main : Machine → List (List ℕ) → Driver → Finish
main m args d = main_parsed m (quantum_command m.atoi args) d
