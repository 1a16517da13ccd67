-- ===== src/Fifo/CallTests.antt =====
-- Calls that run at the same time on a small FIFO of rmiller-pa5/driver/scull.c.
use cs.Common.{ℕ, ◌+◌, ◌≤◌, ◌≡◌, refl, [], ◌∷◌, arith, false, true, ◌⊎◌, replicate}
use cs.Fifo.{Fifo}
use cs.Fifo.Calls.{
  System, idle, w_in, Reach, reached, start, later, pick, advance, write, down_empty, lock_write,
}
use cs.Fifo.Calls.Invariant.Counts.{total, inside, messages, Positions}
use cs.Fifo.Calls.Invariant.{IsFresh}
use cs.Fifo.Calls.Progress.{At, Proceeds, Waits, critical_section, Reach-Positions, no_deadlock}

abbrev two_slots : Fifo
two_slots = record {
  elemsz = 4;
  size = 2;
  mem = λ a. 0;
  start = 0;
  finish = 0;
  full = 0;
  empty = 2;
}

two_slots-IsFresh : IsFresh two_slots
two_slots-IsFresh = record {
  room = omega arith;
  start_zero = refl;
  finish_zero = refl;
  none_full = refl;
  all_empty = refl;
}

-- One of two users writes, and has the lock.
abbrev writing : System
writing = record {
  shared = record { fifo = record two_slots { empty = 1 }; locked = true; spoiled = false };
  calls = w_in 0 (7 ∷ []) ∷ idle ∷ [];
}

writing_reached : Reach two_slots 2 writing
unfolding replicate
writing_reached = reached (
    later
      (later (later start (pick [] (idle ∷ []) refl (write (7 ∷ []))))
        (pick [] (idle ∷ []) refl (advance (down_empty (omega arith)))))
      (pick [] (idle ∷ []) refl (advance (lock_write refl))))

abbrev writer : At writing (w_in 0 (7 ∷ []))
writer = record { before = []; after = idle ∷ []; split = refl }

critical_section_example :
    (total inside (idle ∷ []) ≡ 0) × (0 ≤ messages writing) × (messages writing + 1 ≤ 2)
critical_section_example = critical_section two_slots-IsFresh writing_reached writer refl

Reach-Positions_example :
    (i : ℕ) × Positions (record two_slots { empty = 1 }) (messages writing) i 0 0
unfolding total
Reach-Positions_example = Reach-Positions two_slots-IsFresh writing_reached refl

no_deadlock_example : Proceeds writing ⊎ Waits writing
no_deadlock_example = no_deadlock two_slots-IsFresh writing_reached
