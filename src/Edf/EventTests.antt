-- ===== src/Edf/EventTests.antt =====
-- The theorems about the events of pa3/edf.c at small schedules.
use cs.Common.{◌≤◌, ℕ, ◌%◌, ◌≡◌, refl, true, [], ◌∷◌, inr, some, arith, Bool}
use cs.Fs.Layout.Codec.{All}
use cs.Edf.{Process}
use cs.Edf.Cycle.{found, least_common_multiple, multiple_from}
use cs.Edf.Events.{
  Sim, check_event, check_deadlines, releases, release, append, grow, extend_deadlines,
  extend_running,
}
use cs.Edf.Events.Bounds.{Fits, check_event-Fits}
use cs.Edf.Events.Earliest.{IsEarliest, check_deadlines-Before}
use cs.Edf.Main.{main, printed, all_entered}
use cs.Edf.Cycle.Least.{IsLeast, least_common_multiple_lem}
use cs.Edf.Main.Ends.{main_lem}

twelve : least_common_multiple 4 6 ≡ found 12
unfolding least_common_multiple multiple_from
twelve = refl

abbrev one : Process
one = record {
  pid = 1;
  cpu_time = 2;
  period = 5;
  deadline = 5;
  remaining_time = 2;
  preempted = 0;
  age = 0;
}

-- Process 1 is about to run for its second period.
abbrev second_period : Sim
second_period = record {
  schedule = [];
  max_size = 1;
  running = record one { pid = 0 };
  procs_created = 1;
  waited = 0;
}

abbrev plenty : ℕ → Bool
plenty n = true

one-Fits : Fits second_period
one-Fits = record { room = omega arith; some_room = omega arith; listed = λ ne. absurd (ne refl) }

check_event-Fits_example :
    (t : Sim) × (check_event plenty 10 (one ∷ []) 5 second_period ≡ some t) × Fits t
check_event-Fits_example =
    check_event-Fits plenty (λ n. refl) (one ∷ []) (omega arith, tt) 10 5 second_period one-Fits
      (λ e. absurd (omega arith))

abbrev released : Sim
released = record second_period {
  schedule = record one { deadline = 10; age = 5 } ∷ [];
  procs_created = 2;
}

check_deadlines-Before_example :
    (t : Sim) × (check_deadlines plenty 5 (one ∷ []) second_period ≡ some t)
    × IsEarliest released.schedule t.running
unfolding releases release append grow extend_deadlines extend_running
check_deadlines-Before_example =
    check_deadlines-Before plenty 5 (one ∷ []) second_period released (record one { pid = 0 }) refl
      (inr refl) (omega arith)

main_lem_example :
    (m waited created : ℕ) × (main plenty ((2, 4) ∷ (3, 6) ∷ []) ≡ printed m waited created)
    × All (λ p. m % p.period ≡ 0) (all_entered 1 ((2, 4) ∷ (3, 6) ∷ []))
    × (m ≤ 24)
main_lem_example =
    main_lem plenty (2, 4) ((3, 6) ∷ []) (λ n. refl) (omega arith, (omega arith, tt)) (omega arith)

least_common_multiple_lem_example : (m : ℕ) × (least_common_multiple 4 6 ≡ found m) × IsLeast 4 6 m
least_common_multiple_lem_example =
    least_common_multiple_lem 4 6 (omega arith) (omega arith) (omega arith)
