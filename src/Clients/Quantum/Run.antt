-- ===== src/Clients/Quantum/Run.antt =====
-- One run of pa4/src/scull.c on the driver of pa4/driver/scull.c, command by command.
use cs.Common.{
  ℕ, Bool-cases, ◌%◌, ◌^◌, ◌<◌, ◌≡◌, refl, ap, true, false, inl, inr, none, some, List, [], ◌∷◌,
  ◌++◌, ltb, if◌then◌else◌, arith,
}
use cs.Quantum.{
  Task, is_listed, Driver, Command, Caller, scull_ioctl, execute, get_user, put_user, list_caller,
  swap_user, reset, set_quantum, tell, get_quantum, query, exchange, shift, info,
}
use cs.Clients.Arguments.{accepted, quantum_command, needs_number}
use cs.Clients.Quantum.{
  Machine, Shown, quantum_reset, quantum_set, task_line, quantum_is, exchanged, shifted, ended,
  ioctl, show_if_ok, one_call, letter, command_of, do_op,
}

-- A machine on which nothing fails, as the kernel and the C library document it: the macros' numbers
-- are told apart, addresses below the limit are the user's, and ints that are not negative pass as they
-- are.
pub record Works (m : Machine) (limit : ℕ) : Type 0 where
  pub kind : (k : Command) → m.io.ioc_type (m.number k) ≡ b'k'
  pub small : (k : Command) → ltb 7 (m.io.ioc_nr (m.number k)) ≡ false
  pub label : (k : Command) → m.io.label (m.number k) ≡ some k
  pub users : (k : Command) (a : ℕ) → a < limit → m.io.access_ok a (m.number k) ≡ true
  pub address : m.address < limit
  pub stray : m.stray < limit
  pub ints : 2 ^ 31 < limit
  pub libc : (v : ℕ) → v < 2 ^ 31 → m.libc (inl v) ≡ v
  pub widen : (v : ℕ) → v < 2 ^ 31 → m.widen v ≡ v
  pub opens : m.opens ≡ true
  pub closes : m.closes ≡ true
  pub writable : m.self.writable ≡ true
  pub kmalloc : m.self.kmalloc_ok ≡ true
  pub copied : m.self.uncopied ≡ 0

-- What a register of one number shows for a command, and the number behind it.
unfoldable pub register : Command → ℕ → ℕ → Shown × ℕ
register reset n v = (quantum_reset, 4000)
register query n v = (quantum_is v, v)
register get_quantum n v = (quantum_is v, v)
register tell n v = (quantum_set, n)
register set_quantum n v = (quantum_set, n)
register exchange n v = (exchanged v, n)
register shift n v = (shifted v, n)
register info n v = (task_line, v)

-- A command with the driver's number goes through to the switch.
pub ioctl_wired :
    (m : Machine) (limit : ℕ) (c : Caller) (k : Command) (arg : ℕ) (d : Driver)
    → Works m limit
    → arg < limit
    → scull_ioctl m.io c (m.number k) arg d ≡ execute c arg k d
unfolding scull_ioctl
ioctl_wired m limit c k arg d h below =
    rw (h.kind k, h.small k, h.users k arg below, h.label k) refl

-- One run shows the register's line and leaves the register's number.
unfoldable pub Ran : Machine → Command → ℕ → Driver → Type 0
Ran m k n d =
    (d' : Driver) × (one_call m k n d
      ≡ record { ret = 0; shown = (register k n d.quantum).0 ∷ []; driver = d' })
    × (d'.quantum ≡ (register k n d.quantum).1)

int_of : (n : ℕ) → n < 2 ^ 31 → n % 2 ^ 32 ≡ n
int_of n h = omega arith

-- Where nothing fails, the caller is or gets listed, and its data is copied.
pub lists :
    (c : Caller) (d : Driver)
    → c.kmalloc_ok ≡ true
    → c.uncopied ≡ 0
    → (ts : List Task) × (list_caller c d
        ≡ record { result = inl 0; user = none; driver = record d { tasks = ts } })
unfolding list_caller
lists c d ok copied = elim (Bool-cases (is_listed c.current d.tasks)) [
  | inl old ↦ (d.tasks, rw (old, copied) refl)
  | inr new ↦ (d.tasks ++ (c.current ∷ []), rw (new, ok, copied) refl)
]

-- The number that the program takes with a command, 0 where it takes none.
pub taken : Command → ℕ → ℕ
taken k n = if needs_number (letter k) then n else 0

pub quantum_command-letter :
    (atoi : List ℕ → ℕ) (k : Command) (word : List ℕ)
    → quantum_command atoi ((letter k ∷ []) ∷ word ∷ []) ≡ accepted (letter k) (taken k (atoi word))
unfolding quantum_command taken
quantum_command-letter atoi reset word = refl
quantum_command-letter atoi query word = refl
quantum_command-letter atoi get_quantum word = refl
quantum_command-letter atoi tell word = refl
quantum_command-letter atoi set_quantum word = refl
quantum_command-letter atoi exchange word = refl
quantum_command-letter atoi shift word = refl
quantum_command-letter atoi info word = refl

pub do_op_lem :
    (m : Machine) (k : Command) (n : ℕ) (d : Driver)
    → do_op m (letter k) n d ≡ ended (one_call m k n d)
unfolding do_op command_of
do_op_lem m reset n d = refl
do_op_lem m query n d = refl
do_op_lem m get_quantum n d = refl
do_op_lem m tell n d = refl
do_op_lem m set_quantum n d = refl
do_op_lem m exchange n d = refl
do_op_lem m shift n d = refl
do_op_lem m info n d = refl

pub register-taken : (k : Command) (n v : ℕ) → register k (taken k n) v ≡ register k n v
unfolding register taken
register-taken reset n v = refl
register-taken query n v = refl
register-taken get_quantum n v = refl
register-taken tell n v = refl
register-taken set_quantum n v = refl
register-taken exchange n v = refl
register-taken shift n v = refl
register-taken info n v = refl

pub taken_low : (k : Command) (n : ℕ) → n < 2 ^ 31 → taken k n < 2 ^ 31
unfolding taken
taken_low k n h = ground arith

pub register_low : (k : Command) (n v : ℕ) → n < 2 ^ 31 → v < 2 ^ 31 → (register k n v).1 < 2 ^ 31
unfolding register
register_low reset n v hn hv = omega arith
register_low query n v hn hv = hv
register_low get_quantum n v hn hv = hv
register_low tell n v hn hv = hn
register_low set_quantum n v hn hv = hn
register_low exchange n v hn hv = hn
register_low shift n v hn hv = hn
register_low info n v hn hv = hv

-- The call on the switch, for what is shown when it returns 0.
module _ (m : Machine) (limit : ℕ) (h : Works m limit) where
  call_lem :
      (k : Command) (arg q : ℕ) (d : Driver)
      → arg < limit
      → ioctl m m.self k arg q d ≡ (
          let a = execute (record m.self { user_int = some q }) arg k d in
          record {
            ret = m.libc a.result;
            q = elim a.user [ none ↦ q | some v ↦ v ];
            driver = a.driver;
          })
  unfolding ioctl
  call_lem k arg q d below =
      ap
        (λ a. record {
          ret = m.libc a.result;
          q = elim a.user [ none ↦ q | some v ↦ v ];
          driver = a.driver;
        })
        (ioctl_wired m limit (record m.self { user_int = some q }) k arg d h below)

  pub ran : (k : Command) (n : ℕ) (d : Driver) → n < 2 ^ 31 → d.quantum < 2 ^ 31 → Ran m k n d
  unfolding one_call Ran register show_if_ok execute get_user put_user swap_user
  ran reset n d low lowq = (
    record d { quantum = 4000 },
    rw (call_lem reset m.stray 0 d h.stray, h.libc 0 (omega arith)) refl,
    refl,
  )
  ran query n d low lowq =
      (d, rw (call_lem query m.stray 0 d h.stray, h.libc d.quantum lowq) refl, refl)
  ran get_quantum n d low lowq = (
    d,
    rw (call_lem get_quantum m.address 0 d h.address, h.writable, h.libc 0 (omega arith)) refl,
    refl,
  )
  ran tell n d low lowq = (
    record d { quantum = n },
    rw
        (
          h.widen n low,
          call_lem tell n 0 d (omega (arith, h.ints)),
          h.libc 0 (omega arith),
          int_of n low,
        )
        refl,
    refl,
  )
  ran set_quantum n d low lowq = (
    record d { quantum = n },
    rw (call_lem set_quantum m.address n d h.address, h.libc 0 (omega arith)) refl,
    refl,
  )
  ran exchange n d low lowq = (
    record d { quantum = n },
    rw (call_lem exchange m.address n d h.address, h.writable, h.libc 0 (omega arith)) refl,
    refl,
  )
  ran shift n d low lowq = (
    record d { quantum = n },
    rw
        (
          h.widen n low,
          call_lem shift n 0 d (omega (arith, h.ints)),
          h.libc d.quantum lowq,
          int_of n low,
        )
        refl,
    refl,
  )
  ran info n d low lowq =
      let (ts, listed) = lists (record m.self { user_int = some 0 }) d h.kmalloc h.copied in
      (
        record d { tasks = ts },
        rw (call_lem info m.address 0 d h.address, listed, h.libc 0 (omega arith)) refl,
        refl,
      )
