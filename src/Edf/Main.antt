-- ===== src/Edf/Main.antt =====
-- main of pa3/edf.c: from the times and periods that are entered to the sums that are printed.
pub mod Ends
use cs.Common.{
  ℕ, suc, ◌+◌, ◌*◌, ◌%◌, Bool, not, ◌||◌, Option, none, some, List, [], ◌∷◌, length, if◌then◌else◌,
}
use cs.Edf.{Process, deadline_sort}
use cs.Edf.Cycle.{trapped, overflowed, endless, found, max_time_from}
use cs.Edf.Events.{Sim, run_schedule, add_waits}

-- The process number `pid` with the time and the period entered for it.
unfoldable pub entered : ℕ → ℕ × ℕ → Process
entered pid (cpu_time, period) = record {
  pid = pid;
  cpu_time = cpu_time;
  period = period;
  deadline = period;
  remaining_time = cpu_time;
  preempted = 0;
  age = 0;
}

unfoldable pub all_entered : ℕ → List (ℕ × ℕ) → List Process
all_entered pid [] = []
all_entered pid (i ∷ is) = entered pid i ∷ all_entered (pid + 1) is

-- `main` returns -1 where there is no memory, ends in an access or a division that is not defined, or
-- prints the time that is over, the time waited and the processes created.
pub data Ending : Type 0 where
  no_memory : Ending
  undefined_step : Ending
  unfinished : Ending
  printed : (max_time waited procs_created : ℕ) → Ending

-- The schedule at the start, sorted. An empty one has no first element.
unfoldable pub start_sim : List Process → Option Sim
start_sim [] = none
start_sim (p ∷ ps) = some (record {
  schedule = p ∷ ps;
  max_size = length (p ∷ ps);
  running = p;
  procs_created = length (p ∷ ps);
  waited = 0;
})

-- The first process still runs when the time is over, or has just ended; the others have waited.
unfoldable pub report : ℕ → Option Sim → Ending
report max_time none = undefined_step
report max_time (some s) = elim s.schedule [
  | [] ↦ printed max_time s.waited s.procs_created
  | p ∷ ps ↦ printed max_time (add_waits max_time ps s.waited) s.procs_created
]

unfoldable pub schedule_all : (ℕ → Bool) → ℕ → List Process → Ending
schedule_all malloc max_time process = elim (start_sim (deadline_sort process)) [
  | none ↦ undefined_step
  | some s ↦ report max_time (run_schedule malloc max_time process (max_time + 1) 0 s)
]

-- `inputs` are the pairs entered. Without any, the period of the first is read behind the array.
unfoldable pub main : (ℕ → Bool) → List (ℕ × ℕ) → Ending
main malloc [] = if malloc 0 then undefined_step else no_memory
main malloc (i ∷ is) =
    let process = all_entered 1 (i ∷ is) in
    if not (malloc (length process))
    then no_memory
    else (elim (max_time_from i.1 (all_entered 2 is)) [
      | trapped ↦ undefined_step
      | overflowed ↦ undefined_step
      | endless ↦ unfinished
      | found m ↦ schedule_all malloc m process
    ])
