-- ===== src/Fifo/Calls/Invariant/Places.antt =====
-- Where start and end of the FIFO of rmiller-pa5/driver/scull.c are after one step of a call.
use cs.Common.{ℕ, ◌+◌, ◌*◌, ◌≤◌, ◌<◌, ◌≡◌, refl, ap, ap₂, ◌∙◌, false, arith}
use cs.Fifo.{Fifo, slot_size, wrap}
use cs.Fifo.Ring.{ahead, wrap-slot}
use cs.Fifo.Calls.{
  set_start, set_end, Shared, Pc, down_full, lock_read, copy_out, pass_start, wrap_start,
  unlock_read, up_empty, unlock_failed_read, up_full_back, down_empty, lock_write, pass_length,
  store_length, copy_in, pass_message, wrap_end, unlock_write, up_full, unlock_failed_write,
  up_empty_back, Move, advance, read, write, no_full, no_lock_read, failed_read, no_empty,
  no_lock_write, failed_write,
}
use cs.Fifo.Calls.Invariant.Counts.{has_full, has_empty, inside, start_past, end_past, Positions}

pub reshaped :
    {f : Fifo} {c c' i a a' b b' : ℕ}
    → Positions f c i a b
    → c ≡ c'
    → a ≡ a'
    → b ≡ b'
    → Positions f c' i a' b'
reshaped {f} {i = i} h e ea eb = record {
  head = h.head;
  start_at = h.start_at ∙ ap (λ k. slot_size f * i + k) ea;
  finish_at = h.finish_at ∙ ap₂ (λ k x. slot_size f * ahead f.size i k + x) e eb;
}

-- Semaphores and memory that change, and the same number of messages.
pub retimed :
    {f : Fifo} {c c' i a b : ℕ}
    → Positions f c i a b
    → (full empty : ℕ) (mem : ℕ → ℕ) → c ≡ c'
    → Positions (record f { full = full; empty = empty; mem = mem }) c' i a b
retimed h full empty mem e =
    let h' = reshaped h e refl refl in
    record { head = h'.head; start_at = h'.start_at; finish_at = h'.finish_at }

-- `start` moves on with a message less, and `end` with one more.
pub started :
    (m : Shared) {c c' b : ℕ} (i : ℕ)
    → Positions m.fifo c i (slot_size m.fifo) b
    → c ≡ c' + 1
    → c ≤ m.fifo.size
    → (j : ℕ) × Positions (set_start m (wrap m.fifo m.fifo.start)).fifo c' j 0 b
started m {c} {c'} {b} i h less room =
    let head = h.head in
    (
      ahead m.fifo.size i 1,
      record {
        head = ground arith;
        start_at = ap (wrap m.fifo) h.start_at ∙ wrap-slot m.fifo i h.head ∙ omega arith;
        finish_at = h.finish_at ∙ ap (λ k. slot_size m.fifo * k + b) (ground arith);
      },
    )

pub ended :
    (m : Shared) {c c' a : ℕ} (i : ℕ)
    → Positions m.fifo c i a (slot_size m.fifo)
    → c' ≡ c + 1
    → c < m.fifo.size
    → (j : ℕ) × Positions (set_end m (wrap m.fifo m.fifo.finish)).fifo c' j a 0
ended m {c} {c'} i h more room =
    let head = h.head in
    let at : ahead m.fifo.size i c < m.fifo.size = ground arith in
    let next : ahead m.fifo.size (ahead m.fifo.size i c) 1 ≡ ahead m.fifo.size i c' =
      ground arith in
    (
      i,
      record {
        head = h.head;
        start_at = h.start_at;
        finish_at =
            ap (wrap m.fifo) h.finish_at
            ∙ wrap-slot m.fifo (ahead m.fifo.size i c) at
            ∙ ap (λ k. slot_size m.fifo * k) next
            ∙ omega arith;
      },
    )

-- A part of a slot passed by `start` or by `end`.
passed_start :
    (m : Shared) {c i a b : ℕ} (n : ℕ)
    → Positions m.fifo c i a b
    → Positions (set_start m (m.fifo.start + n)).fifo c i (n + a) b
passed_start m n h = record {
  head = h.head;
  start_at = omega (arith, h.start_at);
  finish_at = h.finish_at;
}

passed_end :
    (m : Shared) {c i a b : ℕ} (n : ℕ)
    → Positions m.fifo c i a b
    → Positions (set_end m (m.fifo.finish + n)).fifo c i a (n + b)
passed_end m n h = record {
  head = h.head;
  start_at = h.start_at;
  finish_at = omega (arith, h.finish_at);
}

-- Start and end stay in their places, as long as no copy from a user fails.
pub placed_kept :
    {m m' : Shared} {p q : Pc} (others : ℕ) (past written : ℕ → ℕ) (i : ℕ)
    → Move m p m' q
    → Positions m.fifo
        (m.fifo.full + (has_full p + others))
        i
        (start_past (slot_size m.fifo) p + past (slot_size m.fifo))
        (end_past (slot_size m.fifo) p + written (slot_size m.fifo))
    → m.fifo.full + (has_full p + others) + has_empty p ≤ m.fifo.size
    → (inside p ≡ 1 → (past (slot_size m.fifo) ≡ 0) × (written (slot_size m.fifo) ≡ 0))
    → m'.spoiled ≡ false
    → (j : ℕ) × Positions m'.fifo
        (m'.fifo.full + (has_full q + others))
        j
        (start_past (slot_size m'.fifo) q + past (slot_size m'.fifo))
        (end_past (slot_size m'.fifo) q + written (slot_size m'.fifo))
placed_kept {m} others past written i (advance (down_full h)) at room alone clean =
    (i, retimed at _ _ _ (omega arith))
placed_kept {m} others past written i (advance (lock_read h)) at room alone clean =
    (i, retimed at _ _ _ (omega arith))
placed_kept {m} others past written i (advance copy_out) at room alone clean =
    (i, retimed at _ _ _ (omega arith))
placed_kept {m} others past written i (advance pass_start) at room alone clean =
    (i, reshaped (passed_start m _ at) refl (omega arith) refl)
placed_kept {m} others past written i (advance wrap_start) at room alone clean =
    let (a, b) = alone refl in
    let gone : 0 ≡ 0 + past (slot_size m.fifo) = omega (arith, a) in
    let (j, next) =
      started m i (reshaped at refl (omega (arith, a)) refl) (omega arith) (omega arith) in
    (j, reshaped next refl gone refl)
placed_kept {m} others past written i (advance unlock_read) at room alone clean =
    (i, retimed at _ _ _ (omega arith))
placed_kept {m} others past written i (advance up_empty) at room alone clean =
    (i, retimed at _ _ _ (omega arith))
placed_kept {m} others past written i (advance unlock_failed_read) at room alone clean =
    (i, retimed at _ _ _ (omega arith))
placed_kept {m} others past written i (advance up_full_back) at room alone clean =
    (i, retimed at _ _ _ (omega arith))
placed_kept {m} others past written i (advance (down_empty h)) at room alone clean =
    (i, retimed at _ _ _ (omega arith))
placed_kept {m} others past written i (advance (lock_write h)) at room alone clean =
    (i, retimed at _ _ _ (omega arith))
placed_kept {m} others past written i (advance pass_length) at room alone clean =
    (i, reshaped (passed_end m 4 at) refl refl (omega arith))
placed_kept {m} others past written i (advance store_length) at room alone clean =
    (i, retimed at _ _ _ (omega arith))
placed_kept {m} others past written i (advance copy_in) at room alone clean =
    (i, retimed at _ _ _ (omega arith))
placed_kept {m} others past written i (advance pass_message) at room alone clean =
    (i, reshaped (passed_end m m.fifo.elemsz at) refl refl (omega arith))
placed_kept {m} others past written i (advance wrap_end) at room alone clean =
    let (a, b) = alone refl in
    let gone : 0 ≡ 0 + written (slot_size m.fifo) = omega (arith, b) in
    let (j, next) =
      ended m i (reshaped at refl refl (omega (arith, b))) (omega arith) (omega arith) in
    (j, reshaped next refl refl gone)
placed_kept {m} others past written i (advance unlock_write) at room alone clean =
    (i, retimed at _ _ _ (omega arith))
placed_kept {m} others past written i (advance up_full) at room alone clean =
    (i, retimed at _ _ _ (omega arith))
placed_kept {m} others past written i (advance unlock_failed_write) at room alone clean =
    (i, retimed at _ _ _ (omega arith))
placed_kept {m} others past written i (advance up_empty_back) at room alone clean =
    (i, retimed at _ _ _ (omega arith))
placed_kept {m} others past written i (read count) at room alone clean =
    (i, retimed at _ _ _ (omega arith))
placed_kept {m} others past written i (write bytes) at room alone clean =
    (i, retimed at _ _ _ (omega arith))
placed_kept {m} others past written i no_full at room alone clean =
    (i, retimed at _ _ _ (omega arith))
placed_kept {m} others past written i no_lock_read at room alone clean =
    (i, retimed at _ _ _ (omega arith))
placed_kept {m} others past written i failed_read at room alone clean =
    (i, retimed at _ _ _ (omega arith))
placed_kept {m} others past written i no_empty at room alone clean =
    (i, retimed at _ _ _ (omega arith))
placed_kept {m} others past written i no_lock_write at room alone clean =
    (i, retimed at _ _ _ (omega arith))
placed_kept {m} others past written i (failed_write call h) at room alone clean = absurd cc
