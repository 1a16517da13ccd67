-- ===== src/Edf/Cycle.antt =====
-- The length of the schedule in pa3/edf.c: least_common_multiple, and main's loop over the periods.
pub mod Least
use cs.Common.{ℕ, zero, suc, ◌+◌, ◌%◌, ◌^◌, leb, ◌&&◌, ◌||◌, List, [], ◌∷◌, ◌==◌, if◌then◌else◌}
use cs.Edf.{Process}

-- A division by 0 ends the process, and `lcm += a` can overflow an int, which C leaves undefined;
-- `endless` is a loop that has not ended in the rounds given.
pub data Multiple : Type 0 where
  trapped : Multiple
  overflowed : Multiple
  endless : Multiple
  found : ℕ → Multiple

-- The loop, with the rounds left.
unfoldable pub multiple_from : ℕ → ℕ → ℕ → ℕ → Multiple
multiple_from zero lcm a b = endless
multiple_from (suc r) lcm a b =
    let rest = multiple_from r (lcm + a) a b in
    if lcm % a == 0 && lcm % b == 0
    then found lcm
    else if leb (2 ^ 31) (lcm + a)
    then overflowed
    else rest

-- `b` rounds are enough, and 0 divides nothing.
unfoldable pub least_common_multiple : ℕ → ℕ → Multiple
least_common_multiple a b = if a == 0 || b == 0 then trapped else multiple_from b a a b

-- The loop of `main` over the processes behind the first one.
unfoldable pub max_time_from : ℕ → List Process → Multiple
max_time_from time [] = found time
max_time_from time (p ∷ ps) = elim (least_common_multiple time p.period) [
  | trapped ↦ trapped
  | overflowed ↦ overflowed
  | endless ↦ endless
  | found m ↦ max_time_from m ps
]
