-- ===== src/Edf/Events.antt =====
-- The events of pa3/edf.c: check_Deadlines, check_Event and the loop of main over the time. What is
-- printed is left out. Times are natural numbers: sums past 2^31 are undefined in C, and no operation
-- here needs a negative one but the time left of a process that is given no time at all.
pub mod Bounds
pub mod Earliest
use cs.Common.{
  ℕ, zero, suc, ◌+◌, ◌-◌, ◌*◌, ◌%◌, ◌^◌, Bool, true, false, not, ◌&&◌, ◌||◌, Option, none, some,
  List, [], ◌∷◌, ◌++◌, length, ltb, ◌==◌, if◌then◌else◌,
}
use cs.Edf.{Process, is_equal, deadline_sort, remove_element, set_preempt}

-- What `main` hands to the functions by reference: the schedule with the length of its array, the
-- process that runs (its pid is 0 if none does), and the counters.
pub record Sim : Type 0 where
  pub schedule : List Process
  pub max_size : ℕ
  pub running : Process
  pub procs_created : ℕ
  pub waited : ℕ

-- The inner loop: a process whose deadline is now gets a new one.
unfoldable pub missed : Process → ℕ → Process → Bool
missed p now q = q.pid == p.pid && now == q.deadline

unfoldable pub extend_deadlines : Process → ℕ → List Process → List Process
extend_deadlines p now [] = []
extend_deadlines p now (q ∷ qs) =
    (if missed p now q then record q { deadline = now + q.period } else q)
    ∷ extend_deadlines p now qs

-- The same deadline is given to the copy of the running process if the first element has missed its.
unfoldable pub extend_running : Process → ℕ → List Process → Process → Process
extend_running p now [] was = was
extend_running p now (q ∷ qs) was =
    if missed p now q then record was { deadline = now + q.period } else was

-- A full array is replaced by one of twice the length. `malloc` says whether there is memory for that
-- many processes; without it the copy writes to a null pointer. A write behind the array is no
-- defined access either.
unfoldable pub grow : (ℕ → Bool) → Sim → Option Sim
grow malloc s =
    if length s.schedule == s.max_size
    then (if malloc (s.max_size * 2) then some (record s { max_size = s.max_size * 2 }) else none)
    else some s

unfoldable pub append : Process → Sim → Option Sim
append p s =
    if ltb (length s.schedule) s.max_size
    then some (record s { schedule = s.schedule ++ (p ∷ []); procs_created = s.procs_created + 1 })
    else none

-- The body of the loop over the processes for one whose period begins now.
unfoldable pub release : (ℕ → Bool) → ℕ → Process → Sim × Process → Option (Sim × Process)
release malloc now p (s, was) =
    let s1 = record s { schedule = extend_deadlines p now s.schedule } in
    elim (grow malloc s1) [
      | none ↦ none
      | some s2 ↦ (elim (append (record p { deadline = now + p.period; age = now }) s2) [
        | none ↦ none
        | some s3 ↦ some (s3, extend_running p now s.schedule was)
      ])
    ]

-- A period of 0 is a division by 0.
unfoldable pub releases : (ℕ → Bool) → ℕ → List Process → Sim × Process → Option (Sim × Process)
releases malloc now [] x = some x
releases malloc now (p ∷ ps) x =
    if p.period == 0
    then none
    else if now % p.period == 0
    then (elim (release malloc now p x) [ none ↦ none | some y ↦ releases malloc now ps y ])
    else releases malloc now ps x

-- The time that the process has waited since it came or was preempted.
unfoldable pub wait_of : ℕ → Process → ℕ → ℕ
wait_of now p waited = if p.preempted == 0 then waited + now - p.age else waited + now - p.preempted

-- The first process of the sorted schedule runs; one that runs in place of another preempts it. As it
-- is not equal to the other, setPreempt leaves it as it is.
unfoldable pub dispatch : ℕ → Process → Sim → Process → List Process → Sim
dispatch now was s first rest =
    if s.running.pid == 0
    then record s { schedule = first ∷ rest; running = first; waited = wait_of now first s.waited }
    else if is_equal first was
    then record s { schedule = first ∷ rest; running = first }
    else record s {
      schedule = set_preempt was now (first ∷ rest);
      running = first;
      waited = wait_of now first s.waited;
    }

unfoldable pub dispatch_sorted : ℕ → Process → Sim → List Process → Sim
dispatch_sorted now was s [] = s
dispatch_sorted now was s (first ∷ rest) = dispatch now was s first rest

-- After the loop: a schedule that has got processes, or of which none runs, is sorted again.
unfoldable pub reschedule : ℕ → ℕ → Sim × Process → Sim
reschedule now original_size (t, was) =
    if not (length t.schedule == 0)
      && (not (original_size == length t.schedule) || t.running.pid == 0)
    then dispatch_sorted now was t (deadline_sort t.schedule)
    else t

abbrev pub rescheduled : ℕ → ℕ → Option (Sim × Process) → Option Sim
rescheduled now original_size none = none
rescheduled now original_size (some x) = some (reschedule now original_size x)

unfoldable pub check_deadlines : (ℕ → Bool) → ℕ → List Process → Sim → Option Sim
check_deadlines malloc now process s =
    rescheduled now (length s.schedule) (releases malloc now process (s, s.running))

-- `remaining_Time - 1`, kept as an int.
abbrev pub one_less : Process → Process
one_less p = record p { remaining_time = (p.remaining_time + 2 ^ 32 - 1) % 2 ^ 32 }

-- A millisecond of the process that runs, and of the first one of the schedule. An empty schedule has
-- no first element to write to.
unfoldable pub run_first : Sim → Option Sim
run_first s = elim s.schedule [
  | [] ↦ none
  | p ∷ ps ↦ some (record s { schedule = one_less p ∷ ps; running = one_less s.running })
]

-- A process that has run to its end leaves the schedule.
unfoldable pub has_finished : Sim → Bool
has_finished s = not (s.running.pid == 0) && s.running.remaining_time == 0

unfoldable pub retire : Sim → Option Sim
retire s = elim s.schedule [
  | [] ↦ none
  | p ∷ ps ↦
      some
        (record s { schedule = remove_element s.schedule; running = record s.running { pid = 0 } })
]

unfoldable pub end_finished : Sim → Option Sim
end_finished s = if has_finished s then retire s else some s

-- What happens after time 0 and before the last millisecond.
unfoldable pub next_event : (ℕ → Bool) → ℕ → List Process → Sim → Option Sim
next_event malloc now process s = elim (end_finished s) [
  | none ↦ none
  | some r ↦ (elim (check_deadlines malloc now process r) [
    | none ↦ none
    | some t ↦ if length t.schedule == 0 then some t else run_first t
  ])
]

unfoldable pub check_event : (ℕ → Bool) → ℕ → List Process → ℕ → Sim → Option Sim
check_event malloc max_time process now s =
    if now == 0
    then run_first s
    else if now == max_time
    then some s
    else next_event malloc now process s

-- The loop of `main` with the milliseconds left, from `now` on.
unfoldable pub run_schedule : (ℕ → Bool) → ℕ → List Process → ℕ → ℕ → Sim → Option Sim
run_schedule malloc max_time process zero now s = some s
run_schedule malloc max_time process (suc n) now s =
    elim (check_event malloc max_time process now s) [
      | none ↦ none
      | some t ↦ run_schedule malloc max_time process n (now + 1) t
    ]

-- What the processes behind the first have waited when the time is over.
unfoldable pub add_waits : ℕ → List Process → ℕ → ℕ
add_waits max_time [] waited = waited
add_waits max_time (p ∷ ps) waited =
    add_waits max_time ps (waited + (max_time - (if p.preempted == 0 then p.age else p.preempted)))
