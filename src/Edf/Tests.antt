-- ===== src/Edf/Tests.antt =====
-- The theorem about pa3/edf.c at three processes.
use cs.Common.{ℕ, ◌≡◌, refl, List, [], ◌∷◌, map}
use mathlib.Core.List.{Permᴰ}
use cs.Edf.{
  Process, deadline_sort, bubbles, bubble, order_pair, same_deadline, by_deadline, by_age, by_pid,
  swap_if,
}
use cs.Edf.Sort.{InOrder, deadline_sort-InOrder}

abbrev process : ℕ → ℕ → ℕ → Process
process pid deadline age = record {
  pid = pid;
  cpu_time = 25;
  period = 50;
  deadline = deadline;
  remaining_time = 25;
  preempted = 0;
  age = age;
}

abbrev three : List Process
three = process 3 80 50 ∷ process 2 80 0 ∷ process 1 50 0 ∷ []

sorted_pids : map (λ p. p.pid) (deadline_sort three) ≡ 1 ∷ 2 ∷ 3 ∷ []
unfolding deadline_sort bubbles bubble order_pair same_deadline by_deadline by_age by_pid swap_if
sorted_pids = refl

deadline_sort-InOrder_example : InOrder (deadline_sort three) × Permᴰ three (deadline_sort three)
deadline_sort-InOrder_example = deadline_sort-InOrder three
