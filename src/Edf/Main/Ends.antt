-- ===== src/Edf/Main/Ends.antt =====
-- The program of pa3/edf.c comes to its end.
use cs.Common.{
  ℕ, ◌+◌, ◌*◌, ◌%◌, ◌^◌, ◌≤◌, ◌<◌, ◌≡◌, refl, ap, map, Bool, true, some, List, [], ◌∷◌, length,
  arith,
}
use cs.Fs.Layout.Codec.{All}
use cs.Edf.{Process, deadline_sort}
use cs.Edf.Cycle.Least.{max_time_lem, product}
use cs.Edf.Events.{Sim, add_waits}
use cs.Edf.Events.Bounds.{Fits, run_schedule-Fits, length-deadline_sort}
use cs.Edf.Main.{entered, all_entered, printed, start_sim, report, schedule_all, main}

-- Every period that is entered is positive.
abbrev pub Positive : List (ℕ × ℕ) → Type 0
Positive = All (λ i. 0 < i.1)

entered-periods :
    (pid : ℕ) (is : List (ℕ × ℕ)) → Positive is → All (λ p. 0 < p.period) (all_entered pid is)
unfolding all_entered entered
entered-periods pid [] h = tt
entered-periods pid (i ∷ is) h = (h.0, entered-periods (pid + 1) is h.1)

report_lem :
    (m : ℕ) (s : Sim) → (waited created : ℕ) × (report m (some s) ≡ printed m waited created)
unfolding report
report_lem m s = go s.schedule refl
  where
    go :
        (ps : List Process)
        → s.schedule ≡ ps
        → (waited created : ℕ) × (report m (some s) ≡ printed m waited created)
    go [] e = (s.waited, s.procs_created, rw e refl)
    go (p ∷ ps) e = (add_waits m ps s.waited, s.procs_created, rw e refl)

start_sim-Fits :
    (ps : List Process)
    → 0 < length ps
    → (s : Sim) × (start_sim ps ≡ some s) × Fits s × (0 < length s.schedule)
unfolding start_sim
start_sim-Fits [] listed = absurd (omega arith)
start_sim-Fits (p ∷ ps) listed = (
  _,
  refl,
  record { room = omega arith; some_room = omega arith; listed = λ ne. omega arith },
  omega arith,
)

same_periods :
    (pid : ℕ) (is : List (ℕ × ℕ)) → map (λ p. p.period) (all_entered pid is) ≡ map (λ i. i.1) is
unfolding all_entered entered
same_periods pid [] = refl
same_periods pid (i ∷ is) = ap (λ t. i.1 ∷ t) (same_periods (pid + 1) is)

-- With memory, a process at least and positive periods whose product is below 2^30, the program comes
-- to its end without an access or a division that is not defined and without an overflow of
-- `lcm += a`, at a time that all the periods divide and that is at most their product; the sums of
-- ages and waits are taken without overflow.
pub main_lem :
    (malloc : ℕ → Bool) (i : ℕ × ℕ) (is : List (ℕ × ℕ))
    → ((n : ℕ) → malloc n ≡ true)
    → Positive (i ∷ is)
    → product (map (λ i. i.1) (i ∷ is)) < 2 ^ 30
    → (m waited created : ℕ) × (main malloc (i ∷ is) ≡ printed m waited created)
      × All (λ p. m % p.period ≡ 0) (all_entered 1 (i ∷ is))
      × (m ≤ product (map (λ i. i.1) (i ∷ is)))
unfolding main schedule_all all_entered entered
main_lem malloc i is memory positive small =
    let process = all_entered 1 (i ∷ is) in
    let same = ap product (same_periods 2 is) in
    let same_all : i.1 * product (map (λ p. p.period) (all_entered 2 is))
        ≡ i.1 * product (map (λ i. i.1) is) =
      ap (λ n. i.1 * n) same in
    let (m, found_m, pos, at_most, first, rest) =
      max_time_lem i.1 (all_entered 2 is) positive.0 (entered-periods 2 is positive.1)
        (omega (arith, same_all)) in
    let (s, started, fits, listed) =
      start_sim-Fits (deadline_sort process) (omega (arith, length-deadline_sort process)) in
    let (t, ran, _) =
      run_schedule-Fits malloc memory process (entered-periods 1 (i ∷ is) positive) m (m + 1) 0 s
        fits (λ e. listed) in
    let (waited, created, reported) = report_lem m t in
    (
      m,
      waited,
      created,
      ground (arith, memory (length process), found_m, started, ran, reported),
      (first, rest),
      omega (arith, same_all),
    )
