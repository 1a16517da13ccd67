-- ===== src/Fifo/Tests.antt =====
-- The theorems about rmiller-pa5/driver/scull.c at a FIFO of two slots of three bytes.
use cs.Common.{ℕ, ◌≡◌, refl, List, [], ◌∷◌, arith, some, take}
use cs.Fifo.{Fifo, refused, returned, scull_read, scull_write, scull_init_module}
use cs.Fifo.Ring.{Holds}
use cs.Fifo.Queue.{smooth, pushed, pushed-Holds, read-Holds, write-Holds}
use cs.Fifo.Refinement.{put, get, run, queue_run, init-queue_run, failed_write-Holds}

abbrev fresh : Fifo
fresh = record { elemsz = 3; size = 2; mem = λ a. 0; start = 0; finish = 0; full = 0; empty = 2 }

fresh-Holds : Holds fresh 0 []
fresh-Holds = record {
  head = omega arith;
  small = omega arith;
  start_at = refl;
  finish_at = refl;
  used = refl;
  free = refl;
  slots = λ k m e. absurd cc;
}

abbrev hi : List ℕ
hi = b'h' ∷ b'i' ∷ []

one-Holds : Holds (pushed fresh hi) 0 (hi ∷ [])
one-Holds = pushed-Holds fresh 0 hi [] fresh-Holds (omega arith) (omega arith)

write-Holds_example :
    (g : Fifo) × (scull_write smooth hi fresh ≡ returned 2 [] g)
    × Holds g 0 (hi ∷ [])
    × (g.elemsz ≡ 3)
    × (g.size ≡ 2)
unfolding take
write-Holds_example = write-Holds fresh 0 hi [] fresh-Holds (omega arith)

read-Holds_example :
    (g : Fifo) × (scull_read smooth 1 (pushed fresh hi) ≡ returned 1 (b'h' ∷ []) g)
    × Holds g 1 []
    × (g.elemsz ≡ 3)
    × (g.size ≡ 2)
unfolding take
read-Holds_example = read-Holds (pushed fresh hi) 0 1 hi [] one-Holds

failed_write-Holds_example :
    (g : Fifo) × (scull_write (record smooth { uncopied = 1 }) hi fresh ≡ refused g)
    × (¬ (Holds g 0 (hi ∷ [])))
failed_write-Holds_example =
    failed_write-Holds fresh 0 1 0 hi [] (hi ∷ []) fresh-Holds (omega arith) (omega arith)
      (omega arith)

init-queue_run_example :
    (f : Fifo) × (scull_init_module 3 2
        (record { register_error = 0; add_error = 0; memory = some (λ a. 0) })
      ≡ (0, some f))
    × (run (put hi ∷ get 8 ∷ []) f ≡ queue_run 3 2 (put hi ∷ get 8 ∷ []) [])
init-queue_run_example =
    init-queue_run 3 2 (λ a. 0) (put hi ∷ get 8 ∷ []) (omega arith) (omega arith)
