-- ===== src/Fifo/Calls/Progress.antt =====
-- What the users of the FIFO of rmiller-pa5/driver/scull.c can rely on when their calls run at the
-- same time: one call at a time in the ring, only full slots read and free ones written, no deadlock.
pub mod Kinds
use cs.Common.{
  ℕ, ◌+◌, ◌≤◌, ◌<◌, ◌≡◌, refl, sym, ap, ◌∙◌, Bool, true, false, List, [], ◌∷◌, ◌++◌, arith, ◌⊎◌,
  inl, inr, dec_lt, Bool-cases,
}
use cs.Fs.Layout.Codec.{All, All-map}
use cs.Fifo.{Fifo, slot_size}
use cs.Fifo.Calls.{
  Shared, Pc, idle, r_wait, r_token, r_in, r_moved, r_failed, r_back, r_up, w_wait, w_token, w_in,
  w_moved, w_failed, w_back, w_up, Advance, down_full, lock_read, copy_out, unlock_read, up_empty,
  unlock_failed_read, up_full_back, down_empty, lock_write, copy_in, unlock_write, up_full,
  unlock_failed_write, up_empty_back, System, Reach,
}
use cs.Fifo.Calls.Invariant.Counts.{
  total, total-pick, has_full, has_empty, inside, messages, lock_count, start_past, end_past,
  Positions,
}
use cs.Fifo.Calls.Invariant.{Inv, IsFresh, Reach-Inv}
use cs.Fifo.Calls.Progress.Kinds.{
  going, queued, is_reader, is_writer, CanAdvance, going_lem, queued_lem, reader_lem, writer_lem,
  not_inside, no_tokens, scan, total-zero, Still, only_readers, only_writers, only_idle,
}

-- The calls, taken apart at one of them.
pub record At (s : System) (p : Pc) : Type 0 where
  pub before : List Pc
  pub after : List Pc
  pub split : s.calls ≡ before ++ (p ∷ after)

-- In every reachable state of a device that is set up with at least one slot: while a call is
-- between taking and releasing the lock, no other call is there; a reader there has a message in
-- the ring, and a writer a free slot.
pub critical_section :
    {f : Fifo} {users : ℕ} {s : System} {p : Pc}
    → IsFresh f
    → Reach f users s
    → (here : At s p) → inside p ≡ 1
    → (total inside (here.before ++ here.after) ≡ 0)
      × (has_full p ≤ messages s)
      × (messages s + has_empty p ≤ s.shared.fifo.size)
critical_section {s} {p} fresh r here in_ring =
    let h = Reach-Inv fresh r in
    let sum : (g : Pc → ℕ) → total g s.calls ≡ g p + total g (here.before ++ here.after) =
      λ g. ap (total g) here.split ∙ total-pick g here.before here.after p in
    (
      omega (arith, h.lock, sum inside, bound s.shared.locked),
      omega (arith, sum has_full),
      omega (arith, h.kept, h.same_size, sum has_empty),
    )
  where
    bound : (b : Bool) → lock_count b ≤ 1
    bound true = omega arith
    bound false = omega arith

-- In every reachable state of a device that is set up with at least one slot, as long as no copy
-- from a user has failed: start is at a slot of the ring and end as many slots on as there are
-- messages, whatever calls are under way, except that start is a slot on where a reader is about to
-- reset it, and that end is 4 bytes on while a writer stores its length and its bytes, and a slot
-- on where a writer is about to reset it.
pub Reach-Positions :
    {f : Fifo} {users : ℕ} {s : System}
    → IsFresh f
    → Reach f users s
    → s.shared.spoiled ≡ false
    → (i : ℕ) × Positions s.shared.fifo
        (messages s)
        i
        (total (start_past (slot_size s.shared.fifo)) s.calls)
        (total (end_past (slot_size s.shared.fifo)) s.calls)
Reach-Positions fresh r clean = (Reach-Inv fresh r).placed clean

-- Some call can be brought on by a step of its own.
pub Proceeds : System → Type 0
Proceeds s = (p : Pc) × At s p × ((m' : Shared) × (q : Pc) × Advance s.shared p m' q)

proceed :
    (s : System) (P : Pc → Bool)
    → ((p : Pc) → P p ≡ true → CanAdvance s.shared p)
    → Proceeds s ⊎ All (λ p. P p ≡ false) s.calls
unfolding Proceeds CanAdvance
proceed s P can = elim (scan P s.calls) [
  | inl (p, hit, before, after, split) ↦
      inl (p, record { before = before; after = after; split = split }, can p hit)
  | inr none ↦ inr none
]

-- Nothing goes on: no user calls, or readers sleep at an empty ring, or writers at a full one.
pub data Waits (s : System) : Type 0 where
  quiet : All (λ p. p ≡ idle) s.calls → Waits s
  at_empty : messages s ≡ 0 → All (λ p. (p ≡ idle) ⊎ (is_reader p ≡ true)) s.calls → Waits s
  at_full :
      messages s ≡ s.shared.fifo.size
      → All (λ p. (p ≡ idle) ⊎ (is_writer p ≡ true)) s.calls
      → Waits s

-- Two facts of every call make a third.
combine :
    {P Q R : Pc → Type 0} (xs : List Pc)
    → ((p : Pc) → P p → Q p → R p)
    → All P xs
    → All Q xs
    → All R xs
combine [] f a b = tt
combine (x ∷ xs) f a b = (f x a.0 b.0, combine xs f a.1 b.1)

-- Without a call that is going or queued, the semaphores count every message and every slot.
settled :
    {f : Fifo} (s : System)
    → Inv f s
    → 0 < f.size
    → All Still s.calls
    → total has_full s.calls ≡ 0
    → total has_empty s.calls ≡ 0
    → Proceeds s ⊎ Waits s
settled s h room still no_full no_empty = elim (dec_lt 0 s.shared.fifo.full) [
  | no none_full ↦ elim (proceed s is_writer (λ p. writer_lem s.shared p (omega (arith, h.kept)))) [
    | inl on ↦ inl on
    | inr no_writer ↦ inr (at_empty (omega arith) (combine s.calls only_readers still no_writer))
  ]
  | yes some_full ↦ elim (proceed s is_reader (λ p. reader_lem s.shared p some_full)) [
    | inl on ↦ inl on
    | inr no_reader ↦
        let writers = combine s.calls only_writers still no_reader in
        elim (dec_lt 0 s.shared.fifo.empty) [
          | no all_full ↦ inr (at_full (omega (arith, h.kept, h.same_size)) writers)
          | yes some_empty ↦ elim (proceed s is_writer (λ p. writer_lem s.shared p some_empty)) [
            | inl on ↦ inl on
            | inr no_writer ↦ inr (quiet (combine s.calls only_idle writers no_writer))
          ]
        ]
  ]
]

unlocked : (b : Bool) → lock_count b ≡ 0 → b ≡ false
unlocked true e = absurd (omega arith)
unlocked false e = refl

-- No deadlock: in every reachable state of a device that is set up with at least one slot, some
-- call can be brought on without a new call or an interruption, or no call is there, or all that
-- are there are readers that sleep while the ring is empty, or all are writers that sleep while it
-- is full.
pub no_deadlock :
    {f : Fifo} {users : ℕ} {s : System} → IsFresh f → Reach f users s → Proceeds s ⊎ Waits s
unfolding Still
no_deadlock {s} fresh r =
    let h = Reach-Inv fresh r in
    elim (proceed s going (going_lem s.shared)) [
      | inl on ↦ inl on
      | inr none_going ↦
          let open_lock =
            unlocked s.shared.locked
              (sym h.lock ∙ total-zero inside s.calls (All-map s.calls not_inside none_going)) in
          elim (proceed s queued (λ p. queued_lem s.shared p open_lock)) [
            | inl on ↦ inl on
            | inr none_queued ↦
                settled s h fresh.room (combine s.calls (λ p a b. (a, b)) none_going none_queued)
                  (total-zero has_full s.calls
                    (combine s.calls (λ p a b. (no_tokens p a b).0) none_going none_queued))
                  (total-zero has_empty s.calls
                    (combine s.calls (λ p a b. (no_tokens p a b).1) none_going none_queued))
          ]
    ]
