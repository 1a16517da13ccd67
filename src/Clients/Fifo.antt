-- ===== src/Clients/Fifo.antt =====
-- rmiller-pa5/src/producer.c and consumer.c: the processes they start on the FIFO device. What a program
-- does is its exit status and the calls on the device that its children make, one each.
pub mod Hand
use cs.Common.{
  ℕ, zero, suc, ◌+◌, Bool, true, false, not, ◌||◌, List, [], ◌∷◌, ◌++◌, length, drop, set,
  replicate, map, ◌==◌, if◌then◌else◌, Option, none, some,
}
use cs.Fs.Dir.{cstr}
use cs.Fifo.Refinement.{Op, put, get}
use cs.Clients.Arguments.{Parsed, exits, accepted, concurrency}

-- The host system: atoi, whether the device can be opened and closed, and whether each fork succeeds.
pub record Host : Type 0 where
  pub atoi : List ℕ → ℕ
  pub opens : Bool
  pub closes : Bool
  pub forks : List Bool

-- The loop of do_procs: the number of children, and whether every fork has succeeded. The list of forks
-- is as long as the loop needs; behind it forks fail.
unfoldable pub start_children : ℕ → List Bool → ℕ × Bool
start_children zero forks = (0, true)
start_children (suc n) [] = (0, false)
start_children (suc n) (works ∷ forks) =
    let (started, all) = start_children n forks in if works then (suc started, all) else (0, false)

-- `while(i-- > 0) wait(&status);`: the number of waits with `i` children started.
unfoldable pub waits : ℕ → ℕ
waits zero = 0
waits (suc i) = suc (waits i)

-- A program's exit status, its children's calls, and how often it waits. The children run at the
-- same time: the list stands for a run in which each call ends before the next one begins, in the
-- order in which they then come. Calls that overlap are those of Fifo/Calls.
pub record Ended : Type 0 where
  pub status : ℕ
  pub calls : List Op
  pub waited : ℕ

-- do_procs, whose children all make the same call, and how `main` closes the device behind it.
unfoldable pub do_procs : Host → Op → ℕ → Ended
do_procs host op n =
    let (started, all) = start_children n host.forks in
    record {
      status = if not host.closes || not all then 1 else 0;
      calls = replicate started op;
      waited = waits started;
    }

-- `main` behind parse_arguments.
unfoldable pub run_parsed : Host → Op → Parsed → Ended
run_parsed host op (exits status) = record { status = status; calls = []; waited = 0 }
run_parsed host op (accepted cmd n) =
    if host.opens then do_procs host op n else record { status = 1; calls = []; waited = 0 }

-- `main` of both programs, `op` being what one child does.
unfoldable pub run_main : Host → Op → List (List ℕ) → Ended
run_main host op args = run_parsed host op (concurrency host.atoi args)

-- "Robert Miller", without its NUL.
abbrev pub message : List ℕ
message =
    b'R' ∷ b'o' ∷ b'b' ∷ b'e' ∷ b'r' ∷ b't' ∷ b' ' ∷ b'M' ∷ b'i' ∷ b'l' ∷ b'l' ∷ b'e' ∷ b'r' ∷ []

unfoldable pub producer : Host → List (List ℕ) → Ended
producer host args = run_main host (put message) args

-- `len` is what the device's ioctl gives, the element size.
unfoldable pub consumer : Host → ℕ → List (List ℕ) → Ended
consumer host len args = run_main host (get len) args

-- What a child of the consumer prints behind "read: ": `count` is the result of its read, `none` for -1,
-- `bytes` what the read has copied, and `memory` the `len + 1` bytes of the buffer before. The NUL for a
-- count of -1 is written in front of the buffer.
pub data Printed : Type 0 where
  in_front : Printed
  nothing : Printed
  text : List ℕ → Printed

abbrev pub filled : List ℕ → List ℕ → List ℕ
filled memory bytes = bytes ++ drop (length bytes) memory

unfoldable pub print_read : List ℕ → Option ℕ → List ℕ → Printed
print_read memory none bytes = in_front
print_read memory (some count) bytes =
    if count == 0 then nothing else text (cstr (set (filled memory bytes) count 0))
