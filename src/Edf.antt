-- ===== src/Edf.antt =====
-- pa3/edf.c: the earliest-deadline-first schedule. Its helpers on the array of processes.
pub mod Cycle
pub mod Events
pub mod Main
pub mod Order
pub mod Sort
mod EventTests
mod Tests
use cs.Common.{
  ℕ, zero, suc, ◌+◌, ◌-◌, Bool, true, false, ◌&&◌, List, [], ◌∷◌, length, ltb, ◌==◌, if◌then◌else◌,
}

pub record Process : Type 0 where
  pub pid : ℕ
  pub cpu_time : ℕ
  pub period : ℕ
  pub deadline : ℕ
  pub remaining_time : ℕ
  pub preempted : ℕ
  pub age : ℕ

-- `isEqual`.
unfoldable pub is_equal : Process → Process → Bool
is_equal a b =
    a.pid == b.pid
    && a.cpu_time == b.cpu_time
    && a.period == b.period
    && a.deadline == b.deadline
    && a.remaining_time == b.remaining_time
    && a.preempted == b.preempted
    && a.age == b.age

-- `swap` of the two, if the test holds.
unfoldable pub swap_if : Bool → Process × Process → Process × Process
swap_if true (x, y) = (y, x)
swap_if false (x, y) = (x, y)

-- The `if`s in the body of the inner loop, one after the other, on process[i] and process[i + 1].
unfoldable pub by_deadline : Process × Process → Process × Process
by_deadline (x, y) = swap_if (ltb y.deadline x.deadline) (x, y)

unfoldable pub by_age : Process × Process → Process × Process
by_age (x, y) = swap_if (ltb y.age x.age) (x, y)

unfoldable pub by_pid : Process × Process → Process × Process
by_pid (x, y) = if x.age == y.age then swap_if (ltb y.pid x.pid) (x, y) else (x, y)

unfoldable pub same_deadline : Process × Process → Process × Process
same_deadline (x, y) = if x.deadline == y.deadline then by_pid (by_age (x, y)) else (x, y)

unfoldable pub order_pair : Process → Process → Process × Process
order_pair x y = same_deadline (by_deadline (x, y))

-- `n` rounds of the inner loop, from the first element on.
unfoldable pub bubble : ℕ → List Process → List Process
bubble zero ps = ps
bubble (suc n) [] = []
bubble (suc n) (x ∷ []) = x ∷ []
bubble (suc n) (x ∷ y ∷ ps) = (order_pair x y).0 ∷ bubble n ((order_pair x y).1 ∷ ps)

-- The rounds of the outer loop, of n, n - 1, …, 1 rounds each.
unfoldable pub bubbles : ℕ → List Process → List Process
bubbles zero ps = ps
bubbles (suc n) ps = bubbles n (bubble (suc n) ps)

-- On an array of the schedule's length.
unfoldable pub deadline_sort : List Process → List Process
deadline_sort ps = bubbles (length ps - 1) ps

-- The first element is overwritten by those behind it; the length falls by one.
unfoldable pub remove_element : List Process → List Process
remove_element [] = []
remove_element (p ∷ ps) = ps

-- `setPreempt`.
unfoldable pub set_preempt : Process → ℕ → List Process → List Process
set_preempt was_running now [] = []
set_preempt was_running now (p ∷ ps) =
    (if is_equal p was_running then record p { preempted = now } else p)
    ∷ set_preempt was_running now ps
