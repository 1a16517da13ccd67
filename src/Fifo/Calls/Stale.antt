-- ===== src/Fifo/Calls/Stale.antt =====
-- Where a writer on the FIFO of rmiller-pa5/driver/scull.c puts the length of its message: store_len is
-- taken from `end` before the call waits for a slot and for the lock.
use cs.Common.{ℕ, ◌+◌, ◌-◌, true, false, List, [], ◌∷◌}
use cs.Fifo.{Fifo, wrap}
use cs.Fifo.Calls.{
  Shared, idle, w_in, set_end, set_empty, set_full, set_lock, store_length_at, copy_to_end,
  complete, System,
}

-- The steps of a writer inside, up to where it has reset `end`.
abbrev copied_in : Shared → ℕ → List ℕ → Shared
copied_in m store_len bytes =
    copy_to_end (store_length_at (set_end m (m.fifo.finish + 4)) store_len bytes) complete bytes

abbrev left : Shared → ℕ → List ℕ → Shared
left m store_len bytes =
    let past = set_end (copied_in m store_len bytes) (m.fifo.finish + 4 + m.fifo.elemsz) in
    set_end past (wrap past.fifo past.fifo.finish)

-- A writer with the lock, among others, comes to its end.
abbrev returned_from : Shared → ℕ → List ℕ → Shared
returned_from m store_len bytes =
    let out = set_lock (left m store_len bytes) false in set_full out (out.fifo.full + 1)

-- The ring after the first of two writes, and while the second one has the lock.
abbrev entered : Fifo → Shared
entered f = record { fifo = record f { empty = f.empty - 1 }; locked = true; spoiled = false }

abbrev after_first : Fifo → List ℕ → Shared
after_first f first = returned_from (entered f) f.finish first

abbrev second_inside : Fifo → List ℕ → List ℕ → System
second_inside f first second = record {
  shared = set_lock (set_empty (after_first f first) (f.empty - 1 - 1)) true;
  calls = idle ∷ w_in f.finish second ∷ [];
}
