-- ===== src/Edf/Events/Bounds.antt =====
-- The schedule of pa3/edf.c stays inside its array: no event touches anything outside it.
pub mod Releases
use cs.Common.{
  ℕ, zero, suc, ◌+◌, ◌-◌, ◌*◌, ◌%◌, ◌≤◌, ◌<◌, ◌≡◌, ◌≢◌, refl, ap, ◌∙◌, Bool, true, not, ◌&&◌, ◌||◌,
  some, List, [], ◌∷◌, ◌++◌, length, length-append, ◌==◌, arith, Bool-cases, inl, inr, ℕ_discrete,
}
use cs.Fs.Layout.Codec.{All}
use cs.Edf.{
  Process, bubble, bubbles, order_pair, is_equal, deadline_sort, remove_element, set_preempt,
}
use cs.Edf.Events.{
  Sim, extend_deadlines, extend_running, grow, append, release, releases, dispatch, dispatch_sorted,
  reschedule, rescheduled, one_less, check_deadlines, run_first, retire, has_finished, end_finished,
  next_event, check_event, run_schedule,
}
use cs.Edf.Events.Bounds.Releases.{Grown, releases_lem}

-- The schedule fits its array, and is not empty while a process runs.
pub record Fits (s : Sim) : Type 0 where
  pub room : length s.schedule ≤ s.max_size
  pub some_room : 0 < s.max_size
  pub listed : s.running.pid ≢ 0 → 0 < length s.schedule

length-set_preempt :
    (was : Process) (now : ℕ) (qs : List Process) → length (set_preempt was now qs) ≡ length qs
unfolding set_preempt
length-set_preempt was now [] = refl
length-set_preempt was now (q ∷ qs) = omega (arith, length-set_preempt was now qs)

length-bubble : (n : ℕ) (ps : List Process) → length (bubble n ps) ≡ length ps
unfolding bubble
length-bubble zero ps = refl
length-bubble (suc n) [] = refl
length-bubble (suc n) (x ∷ []) = refl
length-bubble (suc n) (x ∷ y ∷ ps) = omega (arith, length-bubble n ((order_pair x y).1 ∷ ps))

length-bubbles : (n : ℕ) (ps : List Process) → length (bubbles n ps) ≡ length ps
unfolding bubbles
length-bubbles zero ps = refl
length-bubbles (suc n) ps = length-bubbles n (bubble (suc n) ps) ∙ length-bubble (suc n) ps

-- Sorting keeps the length.
pub length-deadline_sort : (ps : List Process) → length (deadline_sort ps) ≡ length ps
unfolding deadline_sort
length-deadline_sort ps = length-bubbles (length ps - 1) ps

dispatch_sorted-Fits :
    (now : ℕ) (was : Process) (s : Sim) (ps : List Process)
    → length ps ≡ length s.schedule
    → Fits s
    → Fits (dispatch_sorted now was s ps)
unfolding dispatch_sorted dispatch
dispatch_sorted-Fits now was s [] same h = h
dispatch_sorted-Fits now was s (p ∷ ps) same h = elim (Bool-cases (s.running.pid == 0)) [
  | inl idle ↦
      rw idle (record {
        room = omega (arith, h.room);
        some_room = h.some_room;
        listed = λ ne. omega arith;
      })
  | inr busy ↦ elim (Bool-cases (is_equal p was)) [
    | inl same_one ↦
        rw (busy, same_one)
          (record {
            room = omega (arith, h.room);
            some_room = h.some_room;
            listed = λ ne. omega arith;
          })
    | inr other ↦
        rw (busy, other)
          (record {
            room = omega (arith, h.room, length-set_preempt was now (p ∷ ps));
            some_room = h.some_room;
            listed = λ ne. omega (arith, length-set_preempt was now (p ∷ ps));
          })
  ]
]

reschedule-Fits :
    (now original : ℕ) (s : Sim) (was : Process) → Fits s → Fits (reschedule now original (s, was))
unfolding reschedule
reschedule-Fits now original s was h =
    elim (Bool-cases (
      not (length s.schedule == 0)
      && (not (original == length s.schedule) || s.running.pid == 0))) [
        | inl again ↦ rw again (
            dispatch_sorted-Fits now was s (deadline_sort s.schedule)
              (length-deadline_sort s.schedule) h)
        | inr as_is ↦ rw as_is h
      ]

run_first-Fits :
    (s : Sim) → Fits s → 0 < length s.schedule → (t : Sim) × (run_first s ≡ some t) × Fits t
unfolding run_first
run_first-Fits s h listed = go s.schedule refl
  where
    go : (ps : List Process) → s.schedule ≡ ps → (t : Sim) × (run_first s ≡ some t) × Fits t
    go [] e = absurd (omega (arith, listed, ap (λ c. length c) e))
    go (p ∷ ps) e = (
      record s { schedule = one_less p ∷ ps; running = one_less s.running },
      rw e refl,
      record {
        room = omega (arith, h.room, ap (λ c. length c) e);
        some_room = h.some_room;
        listed = λ ne. omega arith;
      },
    )

finished-running : (s : Sim) → has_finished s ≡ true → s.running.pid ≢ 0
unfolding has_finished
finished-running s e = ground arith

end_finished-Fits : (s : Sim) → Fits s → (t : Sim) × (end_finished s ≡ some t) × Fits t
unfolding end_finished retire remove_element
end_finished-Fits s h = elim (Bool-cases (has_finished s)) [
  | inr goes_on ↦ (s, rw goes_on refl, h)
  | inl ended ↦ go s.schedule refl ended
]
  where
    go :
        (ps : List Process)
        → s.schedule ≡ ps
        → has_finished s ≡ true
        → (t : Sim) × (end_finished s ≡ some t) × Fits t
    go [] e ended =
        absurd (omega (arith, h.listed (finished-running s ended), ap (λ c. length c) e))
    go (p ∷ ps) e ended = (
      record s { schedule = ps; running = record s.running { pid = 0 } },
      rw (ended, e) refl,
      record {
        room = omega (arith, h.room, ap (λ c. length c) e);
        some_room = h.some_room;
        listed = λ ne. absurd (ne refl);
      },
    )

module _ (malloc : ℕ → Bool) (memory : (n : ℕ) → malloc n ≡ true) (process : List Process)
    (periods : All (λ p. 0 < p.period) process) where
  check_deadlines-Fits :
      (now : ℕ) (s : Sim)
      → Fits s
      → (t : Sim) × (check_deadlines malloc now process s ≡ some t) × Fits t
  unfolding check_deadlines
  check_deadlines-Fits now s h =
      let (r, was, run, g) =
        releases_lem malloc memory now process s s.running periods h.room h.some_room in
      let fits : Fits r = record {
        room = g.room;
        some_room = g.some_room;
        listed =
            λ ne. omega (arith, g.longer, h.listed (λ e. ne (ap (λ p. p.pid) g.same_running ∙ e)));
      } in
      (
        reschedule now (length s.schedule) (r, was),
        ap (rescheduled now (length s.schedule)) run,
        reschedule-Fits now (length s.schedule) r was fits,
      )

  next_event-Fits :
      (now : ℕ) (s : Sim) → Fits s → (t : Sim) × (next_event malloc now process s ≡ some t) × Fits t
  unfolding next_event
  next_event-Fits now s h =
      let (r, ended, hr) = end_finished-Fits s h in
      let (t, checked, ht) = check_deadlines-Fits now r hr in
      elim (ℕ_discrete (length t.schedule) 0) [
        | yes none_left ↦ (t, ground (arith, ended, checked), ht)
        | no some_left ↦
            let (u, ran, hu) = run_first-Fits t ht (omega arith) in
            (u, ground (arith, ended, checked, ran), hu)
      ]

  -- One event of a schedule that fits its array touches nothing outside it and leaves such a schedule,
  -- if every period is positive and there is memory; at time 0 the schedule must hold a process.
  pub check_event-Fits :
      (max_time now : ℕ) (s : Sim)
      → Fits s
      → (now ≡ 0 → 0 < length s.schedule)
      → (t : Sim) × (check_event malloc max_time process now s ≡ some t) × Fits t
  unfolding check_event
  check_event-Fits max_time now s h first = elim (ℕ_discrete now 0) [
    | yes zero_time ↦
        let (t, ran, ht) = run_first-Fits s h (first zero_time) in (t, ground (arith, ran), ht)
    | no later ↦ elim (ℕ_discrete now max_time) [
      | yes over ↦ (s, ground arith, h)
      | no before ↦ let (t, run, ht) = next_event-Fits now s h in (t, ground (arith, run), ht)
    ]
  ]

  -- A run of the schedule over any number of milliseconds ends without touching anything outside the
  -- array, and leaves a schedule that fits it, under the same conditions.
  pub run_schedule-Fits :
      (max_time n now : ℕ) (s : Sim)
      → Fits s
      → (now ≡ 0 → 0 < length s.schedule)
      → (t : Sim) × (run_schedule malloc max_time process n now s ≡ some t) × Fits t
  unfolding run_schedule
  run_schedule-Fits max_time zero now s h first = (s, refl, h)
  run_schedule-Fits max_time (suc n) now s h first =
      let (t, run, ht) = check_event-Fits max_time now s h first in
      let (u, rest, hu) = run_schedule-Fits max_time n (now + 1) t ht (λ e. absurd (omega arith)) in
      (u, ground (arith, run, rest), hu)
