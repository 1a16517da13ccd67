-- ===== src/Edf/Order.antt =====
-- The order by which pa3/edf.c sorts: the deadline, then the age, then the process number.
use cs.Common.{◌≤◌, ◌<◌, ◌≡◌, ◌⊎◌, arith}
use cs.Edf.{Process, swap_if, by_deadline, by_age, by_pid, same_deadline, order_pair}

-- `x` is not to run after `y`.
abbrev pub Before : Process → Process → Type 0
Before x y =
    (x.deadline < y.deadline)
    ⊎ ((x.deadline ≡ y.deadline) × ((x.age < y.age) ⊎ ((x.age ≡ y.age) × (x.pid ≤ y.pid))))

pub Before-trans : (x y z : Process) → Before x y → Before y z → Before x z
Before-trans x y z h k = ground arith

-- The body of the loop leaves the two as they are or swaps them, and the first then comes before
-- the second.
pub order_pair-Before :
    (x y : Process)
    → ((order_pair x y ≡ (x, y)) × Before x y) ⊎ ((order_pair x y ≡ (y, x)) × Before y x)
unfolding order_pair same_deadline by_deadline by_age by_pid swap_if
order_pair-Before x y = ground arith
