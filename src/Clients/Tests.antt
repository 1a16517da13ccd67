-- ===== src/Clients/Tests.antt =====
-- The theorems about the devices' programs on small machines.
use cs.Common.{
  ℕ, ◌==◌, if◌then◌else◌, ◌^◌, ◌≡◌, refl, true, false, ◌||◌, ◌⊎◌, inl, inr, Option, none, some,
  List, [], ◌∷◌, ◌++◌, length, take, replicate, drop, ltb, arith,
}
use cs.Fifo.{Fifo, scull_init_module}
use cs.Fifo.Refinement.{run}
use cs.Quantum.{
  Task, Command, Caller, Errno, loaded, same_task, is_listed, reset, set_quantum, tell, get_quantum,
  query, exchange, shift, info,
}
use cs.Quantum.Laws.{Distinct}
use cs.Fs.Dir.{cstr}
use cs.Clients.Fifo.{Host, message, producer, consumer, print_read, text}
use cs.Clients.Fifo.Hand.{Works, with_number, consumer-producer, print_read-stale}
use cs.Clients.Merge.{flatten, any, here, there, finished, turn}
use cs.Clients.Quantum.{Machine, Child, task_line, calls_of, fork_test}
use cs.Clients.Quantum.Run as Run
use cs.Clients.Quantum.Register.{Use, session, register_run, session-register_run}
use cs.Clients.Quantum.Forks.{Served, fork_test-Merges}

-- Two children, as entered by the word "2".
abbrev two : Host
two = record { atoi = λ word. 2; opens = true; closes = true; forks = true ∷ true ∷ [] }

abbrev digit : List ℕ
digit = b'2' ∷ []

two-Works : Works two digit 2
unfolding replicate
two-Works = record { number = refl; opens = refl; closes = refl; forks = refl }

consumer-producer_example :
    (f : Fifo) × (scull_init_module 4 3
        (record { register_error = 0; add_error = 0; memory = some (λ i. 0) })
      ≡ (0, some f))
    × ((producer two (with_number digit)).status ≡ 0)
    × ((consumer two 4 (with_number digit)).status ≡ 0)
    × (run
          ((producer two (with_number digit)).calls ++ (consumer two 4 (with_number digit)).calls)
          f
        ≡ replicate 2 (length (take 4 message), []) ++ replicate 2 (4, take 4 message))
consumer-producer_example =
    consumer-producer 4 3 2 (λ i. 0) two two digit digit (omega arith) (omega arith) (omega arith)
      (omega arith) two-Works two-Works

print_read-stale_example :
    print_read (b'a' ∷ b'b' ∷ b'c' ∷ b'd' ∷ []) (some 3) (b'x' ∷ [])
    ≡ text (b'x' ∷ b'b' ∷ b'c' ∷ [])
unfolding take drop cstr
print_read-stale_example =
    print_read-stale (b'a' ∷ b'b' ∷ b'c' ∷ b'd' ∷ []) (b'x' ∷ []) 3 (ground arith, tt) (omega arith)
      (omega arith) refl

-- A machine whose commands have the numbers 0 to 7.
abbrev code : Command → ℕ
code reset = 0
code set_quantum = 1
code tell = 2
code get_quantum = 3
code query = 4
code exchange = 5
code shift = 6
code info = 7

abbrev decode : ℕ → Option Command
decode n =
    if n == 0
    then some reset
    else if n == 1
    then some set_quantum
    else if n == 2
    then some tell
    else if n == 3
    then some get_quantum
    else if n == 4
    then some query
    else if n == 5
    then some exchange
    else if n == 6
    then some shift
    else if n == 7
    then some info
    else none

abbrev task : ℕ → Caller
task n = record {
  current = record { pid = n; tgid = n };
  user_int = none;
  writable = true;
  kmalloc_ok = true;
  uncopied = 0;
}

abbrev twice : ℕ → Option Child
twice n = some (record { first = task n; second = task n })

abbrev result : ℕ ⊎ Errno → ℕ
result (inl v) = v
result (inr e) = 4294967295

-- The second child's first call comes between the first child's calls; the third fork fails.
abbrev calls_in_turn : List Caller
calls_in_turn = task 11 ∷ task 12 ∷ task 11 ∷ task 12 ∷ []

abbrev machine : Machine
machine = record {
  io = record { ioc_type = λ n. b'k'; ioc_nr = λ n. n; label = decode; access_ok = λ arg n. true };
  number = code;
  libc = result;
  widen = λ n. n;
  order = λ ps. calls_in_turn;
  atoi = length;
  opens = true;
  closes = true;
  self = task 10;
  address = 8;
  stray = 0;
  forks = twice 11 ∷ none ∷ twice 12 ∷ none ∷ [];
  threads = [];
}

code_small : (k : Command) → ltb 7 (code k) ≡ false
code_small reset = refl
code_small set_quantum = refl
code_small tell = refl
code_small get_quantum = refl
code_small query = refl
code_small exchange = refl
code_small shift = refl
code_small info = refl

decode-code : (k : Command) → decode (code k) ≡ some k
decode-code reset = refl
decode-code set_quantum = refl
decode-code tell = refl
decode-code get_quantum = refl
decode-code query = refl
decode-code exchange = refl
decode-code shift = refl
decode-code info = refl

machine-Works : Run.Works machine (2 ^ 32)
machine-Works = record {
  kind = λ k. refl;
  small = code_small;
  label = decode-code;
  users = λ k a h. refl;
  address = omega arith;
  stray = omega arith;
  ints = omega arith;
  libc = λ v h. refl;
  widen = λ v h. refl;
  opens = refl;
  closes = refl;
  writable = refl;
  kmalloc = refl;
  copied = refl;
}

-- Set 3, shift in 2, exchange with 1 and query.
abbrev uses : List Use
uses =
    record { command = set_quantum; word = b'3' ∷ b'3' ∷ b'3' ∷ []; number = 3 }
    ∷ record { command = shift; word = b'2' ∷ b'2' ∷ []; number = 2 }
    ∷ record { command = exchange; word = b'1' ∷ []; number = 1 }
    ∷ record { command = query; word = []; number = 0 }
    ∷ []

session-register_run_example : session machine uses loaded ≡ register_run uses 4000
session-register_run_example =
    session-register_run machine (2 ^ 32) machine-Works uses loaded
      ((refl, omega arith), ((refl, omega arith), ((refl, omega arith), ((refl, omega arith), tt))))
      (omega arith)

fork_test-Merges_example :
    let calls = flatten (calls_of (take 4 machine.forks)) in
    let r = fork_test machine loaded in
    (r.shown ≡ replicate (length calls) task_line)
    × Distinct r.driver.tasks
    × (r.driver.quantum ≡ 4000)
    × ((x : Task)
        → is_listed x r.driver.tasks ≡ (is_listed x [] || any (λ c. same_task c.current x) calls))
unfolding flatten calls_of Distinct take Served
fork_test-Merges_example =
    fork_test-Merges machine (2 ^ 32) loaded machine-Works
      (turn here (turn (there here) (turn here (turn (there here) (finished refl)))))
      ((refl, refl), ((refl, refl), ((refl, refl), ((refl, refl), tt)))) tt
