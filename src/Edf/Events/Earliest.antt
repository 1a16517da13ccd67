-- ===== src/Edf/Events/Earliest.antt =====
-- pa3/edf.c runs the process with the earliest deadline.
use cs.Common.{
  ℕ, ◌<◌, ◌≡◌, ◌≢◌, sym, ap, Bool, true, not, ◌&&◌, ◌||◌, some, List, [], ◌∷◌, length, ◌==◌, arith,
  ◌⊎◌, subst,
}
use mathlib.Core.List.{Permᴰ}
use cs.Fs.Layout.Codec.{All}
use cs.Edf.{Process, deadline_sort}
use cs.Edf.Order.{Before}
use cs.Edf.Sort.{InOrder, deadline_sort-InOrder}
use cs.Edf.Events.Bounds.{length-deadline_sort}
use cs.Edf.Events.{
  Sim, releases, dispatch, dispatch_sorted, reschedule, rescheduled, check_deadlines,
}

running_lem :
    (now : ℕ) (was : Process) (s : Sim) (p : Process) (ps : List Process)
    → (dispatch now was s p ps).running ≡ p
unfolding dispatch
running_lem now was s p ps = ground arith

-- `p` is one of the processes, and none of the others comes before it.
pub IsEarliest : List Process → Process → Type 0
IsEarliest ps p = (rest : List Process) × Permᴰ ps (p ∷ rest) × All (Before p) rest

dispatched :
    (now : ℕ) (was : Process) (s : Sim) (ps : List Process)
    → InOrder ps
    → Permᴰ s.schedule ps
    → 0 < length ps
    → IsEarliest s.schedule (dispatch_sorted now was s ps).running
unfolding dispatch_sorted InOrder IsEarliest
dispatched now was s [] order perm listed = absurd (omega arith)
dispatched now was s (p ∷ ps) order perm listed =
    subst (λ q. (rest : List Process) × Permᴰ s.schedule (q ∷ rest) × All (Before q) rest)
      (sym (running_lem now was s p ps)) (ps, perm, order.0)

-- Whatever processes check_Deadlines has found released, if the schedule is not empty then and has
-- become longer or nothing was running, one of the schedule runs afterwards, and none of the
-- others comes before it in the order of deadline, age and number.
pub check_deadlines-Before :
    (malloc : ℕ → Bool) (now : ℕ) (process : List Process) (s r : Sim) (was : Process)
    → releases malloc now process (s, s.running) ≡ some (r, was)
    → length s.schedule ≢ length r.schedule ⊎ r.running.pid ≡ 0
    → 0 < length r.schedule
    → (t : Sim) × (check_deadlines malloc now process s ≡ some t) × IsEarliest r.schedule t.running
unfolding check_deadlines reschedule
check_deadlines-Before malloc now process s r was run why listed =
    let (order, perm) = deadline_sort-InOrder r.schedule in
    let again : (not (length r.schedule == 0)
          && (not (length s.schedule == length r.schedule) || r.running.pid == 0))
        ≡ true =
      ground arith in
    (
      reschedule now (length s.schedule) (r, was),
      ap (rescheduled now (length s.schedule)) run,
      rw again (
          dispatched now was r (deadline_sort r.schedule) order perm
            (omega (arith, length-deadline_sort r.schedule))),
    )
