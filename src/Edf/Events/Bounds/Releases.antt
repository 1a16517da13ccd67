-- ===== src/Edf/Events/Bounds/Releases.antt =====
-- The releases of pa3/edf.c: new processes are stored inside the array of the schedule.
use cs.Common.{
  ℕ, ◌+◌, ◌*◌, ◌%◌, ◌≤◌, ◌<◌, ◌≡◌, refl, ◌∙◌, Bool, true, some, List, [], ◌∷◌, ◌++◌, length,
  length-append, arith, ℕ_discrete,
}
use cs.Fs.Layout.Codec.{All}
use cs.Edf.{Process}
use cs.Edf.Events.{Sim, extend_deadlines, extend_running, grow, append, release, releases}

length-extend_deadlines :
    (p : Process) (now : ℕ) (qs : List Process) → length (extend_deadlines p now qs) ≡ length qs
unfolding extend_deadlines
length-extend_deadlines p now [] = refl
length-extend_deadlines p now (q ∷ qs) = omega (arith, length-extend_deadlines p now qs)

-- `t` is `s` after some releases.
pub record Grown (s t : Sim) : Type 0 where
  pub same_running : t.running ≡ s.running
  pub longer : length s.schedule ≤ length t.schedule
  pub room : length t.schedule ≤ t.max_size
  pub some_room : 0 < t.max_size

module _ (malloc : ℕ → Bool) (memory : (n : ℕ) → malloc n ≡ true) (now : ℕ) where
  grow_lem :
      (s : Sim)
      → length s.schedule ≤ s.max_size
      → 0 < s.max_size
      → (n : ℕ) × (grow malloc s ≡ some (record s { max_size = n })) × (length s.schedule < n)
  unfolding grow
  grow_lem s room pos = elim (ℕ_discrete (length s.schedule) s.max_size) [
    | yes full ↦ (s.max_size * 2, ground (arith, memory (s.max_size * 2)), omega arith)
    | no ne ↦ (s.max_size, ground arith, omega arith)
  ]

  release_lem :
      (p : Process) (s : Sim) (was : Process)
      → length s.schedule ≤ s.max_size
      → 0 < s.max_size
      → (t : Sim) × (was' : Process) × (release malloc now p (s, was) ≡ some (t, was')) × Grown s t
  unfolding release append
  release_lem p s was room pos =
      let s1 : Sim = record s { schedule = extend_deadlines p now s.schedule } in
      let same = length-extend_deadlines p now s.schedule in
      let new : Process = record p { deadline = now + p.period; age = now } in
      let (n, grown, more) = grow_lem s1 (omega arith) pos in
      (
        record s1 {
          max_size = n;
          schedule = s1.schedule ++ (new ∷ []);
          procs_created = s.procs_created + 1;
        },
        extend_running p now s.schedule was,
        ground (arith, grown, more),
        record {
          same_running = refl;
          longer = omega (arith, length-append s1.schedule (new ∷ []));
          room = omega (arith, length-append s1.schedule (new ∷ []));
          some_room = omega arith;
        },
      )

  pub releases_lem :
      (ps : List Process) (s : Sim) (was : Process)
      → All (λ p. 0 < p.period) ps
      → length s.schedule ≤ s.max_size
      → 0 < s.max_size
      → (t : Sim) × (was' : Process) × (releases malloc now ps (s, was) ≡ some (t, was'))
        × Grown s t
  unfolding releases
  releases_lem [] s was all room pos = (
    s,
    was,
    refl,
    record { same_running = refl; longer = omega arith; room = room; some_room = pos },
  )
  releases_lem (p ∷ ps) s was all room pos = elim (ℕ_discrete (now % p.period) 0) [
    | no ne ↦
        let (t, was', run, g) = releases_lem ps s was all.1 room pos in
        (t, was', let period = all.0 in ground (arith, run), g)
    | yes due ↦
        let (s', was1, first, g1) = release_lem p s was room pos in
        let (t, was', run, g) = releases_lem ps s' was1 all.1 g1.room g1.some_room in
        (
          t,
          was',
          let period = all.0 in ground (arith, first, run),
          record {
            same_running = g.same_running ∙ g1.same_running;
            longer = omega (arith, g.longer, g1.longer);
            room = g.room;
            some_room = g.some_room;
          },
        )
  ]
