-- ===== src/Fifo/Calls/Invariant.antt =====
-- What holds whenever calls on the FIFO of rmiller-pa5/driver/scull.c run at the same time: no token
-- of a semaphore is lost, one call has the lock, and start and end are as far apart as FULL says.
pub mod Counts
pub mod Moves
pub mod Places
use cs.Common.{
  ℕ, zero, suc, ◌+◌, ◌*◌, ◌≤◌, ◌<◌, ◌≡◌, refl, sym, ap, ap₂, subst, ◌∙◌, Bool, true, false, List,
  [], ◌∷◌, ◌++◌, arith, replicate,
}
use cs.Fifo.{Fifo, slot_size, wrap}
use cs.Fifo.Ring.{ahead, wrap-slot}
use cs.Fifo.Calls.{
  Shared, idle, r_wait, r_token, r_in, r_copied, r_past, r_moved, r_failed, r_back, r_up, w_wait,
  w_token, w_in, w_len, w_copy, w_copied, w_past, w_moved, w_failed, w_back, w_up, Pc, System, Step,
  pick, launched, From, Reach, reached, start, later,
}
use cs.Fifo.Calls.Invariant.Counts.{
  total, total-pick, total-idle, has_full, has_empty, inside, messages, free_slots, lock_count,
  start_past, end_past, all_in_place, Positions,
}
use cs.Fifo.Calls.Invariant.Moves.{
  tokens_kept, lock_bound, lock_kept, size-Advance, size_kept, spoiled-Advance, was_clean,
}
use cs.Fifo.Calls.Invariant.Places.{reshaped, retimed, started, ended, placed_kept}

pub record Inv (f : Fifo) (s : System) : Type 0 where
  pub same_size : s.shared.fifo.size ≡ f.size
  pub kept : messages s + free_slots s ≡ f.size
  pub lock : total inside s.calls ≡ lock_count s.shared.locked
  pub placed :
      s.shared.spoiled ≡ false
      → (i : ℕ) × Positions s.shared.fifo
          (messages s)
          i
          (total (start_past (slot_size s.shared.fifo)) s.calls)
          (total (end_past (slot_size s.shared.fifo)) s.calls)

Step-Inv : {f : Fifo} {s t : System} → Inv f s → Step s t → Inv f t
Step-Inv {f} {s} h (pick before after {p} {q} {m} at move) =
    let sum : (g : Pc → ℕ) → total g s.calls ≡ g p + total g (before ++ after) =
      λ g. ap (total g) at ∙ total-pick g before after p in
    let sum' = λ (g : Pc → ℕ). total-pick g before after q in
    record {
      same_size = size_kept move ∙ h.same_size;
      kept = omega (
        arith,
        h.kept,
        tokens_kept move,
        sum has_full,
        sum has_empty,
        sum' has_full,
        sum' has_empty,
      );
      lock =
          sum' inside ∙ lock_kept (total inside (before ++ after)) move (sym (sum inside) ∙ h.lock);
      placed = λ clean.
          let (i, pos) = h.placed (was_clean move clean) in
          let rest = before ++ after in
          let w = slot_size s.shared.fifo in
          let w' = slot_size m.fifo in
          let (j, next) =
            placed_kept (total has_full rest) (λ v. total (start_past v) rest)
              (λ v. total (end_past v) rest) i move
              (reshaped pos (ap (λ k. s.shared.fifo.full + k) (sum has_full)) (sum (start_past w))
                (sum (end_past w)))
              (omega (arith, h.kept, h.same_size, sum has_full, sum has_empty))
              (λ in_ring.
                all_in_place w rest (omega (arith, h.lock, sum inside, lock_bound s.shared.locked)))
              clean in
          (
            j,
            reshaped next (ap (λ k. m.fifo.full + k) (sym (sum' has_full)))
                (sym (sum' (start_past w'))) (sym (sum' (end_past w'))),
          );
    }

-- A device as it is set up: empty, with a slot at least.
pub record IsFresh (f : Fifo) : Type 0 where
  pub room : 0 < f.size
  pub start_zero : f.start ≡ 0
  pub finish_zero : f.finish ≡ 0
  pub none_full : f.full ≡ 0
  pub all_empty : f.empty ≡ f.size

launched-Inv : {f : Fifo} (users : ℕ) → IsFresh f → Inv f (launched f users)
launched-Inv {f} users h =
    let idle_full = total-idle has_full users refl in
    let idle_empty = total-idle has_empty users refl in
    record {
      same_size = refl;
      kept = omega (arith, idle_full, idle_empty, h.none_full, h.all_empty);
      lock = total-idle inside users refl;
      placed = λ clean. (
        0,
        record {
          head = h.room;
          start_at = omega (arith, h.start_zero, total-idle (start_past (slot_size f)) users refl);
          finish_at =
              (let none : messages (launched f users) ≡ 0 = omega (arith, idle_full, h.none_full) in
                let room = h.room in
                let first : ahead f.size 0 (messages (launched f users)) ≡ 0 = ground arith in
                h.finish_zero
                ∙ sym (
                    ap₂ (λ k x. slot_size f * k + x) first
                      (total-idle (end_past (slot_size f)) users refl)
                    ∙ omega arith));
        },
      );
    }

From-Inv : {f : Fifo} {r s : System} → Inv f r → From r s → Inv f s
From-Inv h start = h
From-Inv h (later r step) = Step-Inv (From-Inv h r) step

pub Reach-Inv : {f : Fifo} {users : ℕ} {s : System} → IsFresh f → Reach f users s → Inv f s
Reach-Inv {users} fresh (reached r) = From-Inv (launched-Inv users fresh) r
