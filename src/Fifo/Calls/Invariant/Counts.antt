-- ===== src/Fifo/Calls/Invariant/Counts.antt =====
-- What is counted over the calls on the FIFO of rmiller-pa5/driver/scull.c: messages, slots and the lock.
use cs.Common.{
  ℕ, zero, suc, ◌+◌, ◌*◌, ◌<◌, ◌≡◌, refl, Bool, true, false, List, [], ◌∷◌, ◌++◌, arith, replicate,
}
use cs.Fifo.{Fifo, slot_size}
use cs.Fifo.Ring.{ahead}
use cs.Fifo.Calls.{
  Pc, idle, r_wait, r_token, r_in, r_copied, r_past, r_moved, r_failed, r_back, r_up, w_wait,
  w_token, w_in, w_len, w_copy, w_copied, w_past, w_moved, w_failed, w_back, w_up, System,
}

-- The sum of a number over the calls.
unfoldable pub total : (Pc → ℕ) → List Pc → ℕ
total f [] = 0
total f (p ∷ ps) = f p + total f ps

pub total-pick :
    (f : Pc → ℕ) (before after : List Pc) (p : Pc)
    → total f (before ++ (p ∷ after)) ≡ f p + total f (before ++ after)
unfolding total
total-pick f [] after p = refl
total-pick f (x ∷ before) after p = omega (arith, total-pick f before after p)

pub total-idle : (f : Pc → ℕ) (n : ℕ) → f idle ≡ 0 → total f (replicate n idle) ≡ 0
unfolding total replicate
total-idle f zero e = refl
total-idle f (suc n) e = omega (arith, total-idle f n e)

-- The calls that hold a message which is not counted by FULL, those that hold a slot which is not
-- counted by EMPTY, and those that have the lock.
abbrev pub has_full : Pc → ℕ
has_full (r_token _ _) = 1
has_full (r_in _ _) = 1
has_full (r_copied _ _) = 1
has_full (r_past _ _) = 1
has_full r_failed = 1
has_full r_back = 1
has_full w_moved = 1
has_full w_up = 1
has_full _ = 0

abbrev pub has_empty : Pc → ℕ
has_empty (r_moved _ _) = 1
has_empty (r_up _ _) = 1
has_empty (w_token _ _) = 1
has_empty (w_in _ _) = 1
has_empty (w_len _ _) = 1
has_empty (w_copy _) = 1
has_empty w_copied = 1
has_empty w_past = 1
has_empty w_failed = 1
has_empty w_back = 1
has_empty _ = 0

abbrev pub inside : Pc → ℕ
inside (r_in _ _) = 1
inside (r_copied _ _) = 1
inside (r_past _ _) = 1
inside (r_moved _ _) = 1
inside r_failed = 1
inside (w_in _ _) = 1
inside (w_len _ _) = 1
inside (w_copy _) = 1
inside w_copied = 1
inside w_past = 1
inside w_moved = 1
inside w_failed = 1
inside _ = 0

-- How far a call inside has moved `start` and `end` off their slots, where slots have `w` bytes.
abbrev pub start_past : ℕ → Pc → ℕ
start_past w (r_past _ _) = w
start_past w _ = 0

abbrev pub end_past : ℕ → Pc → ℕ
end_past w (w_len _ _) = 4
end_past w (w_copy _) = 4
end_past w w_copied = 4
end_past w w_past = w
end_past w _ = 0

-- Without a call inside, nothing is off its slot.
in_place : (w : ℕ) (p : Pc) → inside p ≡ 0 → (start_past w p ≡ 0) × (end_past w p ≡ 0)
in_place w idle e = (refl, refl)
in_place w (r_wait c l) e = (refl, refl)
in_place w (r_token c l) e = (refl, refl)
in_place w (r_in c l) e = absurd (omega (arith, e))
in_place w (r_copied r g) e = absurd (omega (arith, e))
in_place w (r_past r g) e = absurd (omega (arith, e))
in_place w (r_moved r g) e = absurd (omega (arith, e))
in_place w r_failed e = absurd (omega (arith, e))
in_place w r_back e = (refl, refl)
in_place w (r_up r g) e = (refl, refl)
in_place w (w_wait a b) e = (refl, refl)
in_place w (w_token a b) e = (refl, refl)
in_place w (w_in a b) e = absurd (omega (arith, e))
in_place w (w_len a b) e = absurd (omega (arith, e))
in_place w (w_copy b) e = absurd (omega (arith, e))
in_place w w_copied e = absurd (omega (arith, e))
in_place w w_past e = absurd (omega (arith, e))
in_place w w_moved e = absurd (omega (arith, e))
in_place w w_failed e = absurd (omega (arith, e))
in_place w w_back e = (refl, refl)
in_place w w_up e = (refl, refl)

pub all_in_place :
    (w : ℕ) (ps : List Pc)
    → total inside ps ≡ 0
    → (total (start_past w) ps ≡ 0) × (total (end_past w) ps ≡ 0)
unfolding total
all_in_place w [] e = (refl, refl)
all_in_place w (p ∷ ps) e =
    let (a, b) = in_place w p (omega arith) in
    let (c, d) = all_in_place w ps (omega arith) in (omega (arith, a, c), omega (arith, b, d))

-- The messages in the ring, and the free slots.
abbrev pub messages : System → ℕ
messages s = s.shared.fifo.full + total has_full s.calls

abbrev pub free_slots : System → ℕ
free_slots s = s.shared.fifo.empty + total has_empty s.calls

abbrev pub lock_count : Bool → ℕ
lock_count true = 1
lock_count false = 0

-- `start` is `past` bytes behind the slot with number `i`, and `end` is `written` bytes behind the
-- slot that is as many slots on as there are messages.
pub record Positions (f : Fifo) (count i past written : ℕ) : Type 0 where
  pub head : i < f.size
  pub start_at : f.start ≡ slot_size f * i + past
  pub finish_at : f.finish ≡ slot_size f * ahead f.size i count + written
