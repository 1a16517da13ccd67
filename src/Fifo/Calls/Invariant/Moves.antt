-- ===== src/Fifo/Calls/Invariant/Moves.antt =====
-- What one step of a call on the FIFO of rmiller-pa5/driver/scull.c keeps.
use cs.Common.{ℕ, ◌+◌, ◌≤◌, ◌≡◌, refl, sym, ap, ◌∙◌, Bool, true, false, arith}
use cs.Fifo.Calls.{
  Shared, Pc, Advance, down_full, lock_read, copy_out, pass_start, wrap_start, unlock_read,
  up_empty, unlock_failed_read, up_full_back, down_empty, lock_write, pass_length, store_length,
  copy_in, pass_message, wrap_end, unlock_write, up_full, unlock_failed_write, up_empty_back, Move,
  advance, read, write, no_full, no_lock_read, failed_read, no_empty, no_lock_write, failed_write,
}
use cs.Fifo.Calls.Invariant.Counts.{has_full, has_empty, inside, lock_count}

-- No step makes or loses a token.
pub tokens_kept :
    {m m' : Shared} {p q : Pc}
    → Move m p m' q
    → m'.fifo.full + has_full q + (m'.fifo.empty + has_empty q)
      ≡ m.fifo.full + has_full p + (m.fifo.empty + has_empty p)
tokens_kept (advance (down_full h)) = omega arith
tokens_kept (advance (lock_read h)) = omega arith
tokens_kept (advance copy_out) = omega arith
tokens_kept (advance pass_start) = omega arith
tokens_kept (advance wrap_start) = omega arith
tokens_kept (advance unlock_read) = omega arith
tokens_kept (advance up_empty) = omega arith
tokens_kept (advance unlock_failed_read) = omega arith
tokens_kept (advance up_full_back) = omega arith
tokens_kept (advance (down_empty h)) = omega arith
tokens_kept (advance (lock_write h)) = omega arith
tokens_kept (advance pass_length) = omega arith
tokens_kept (advance store_length) = omega arith
tokens_kept (advance copy_in) = omega arith
tokens_kept (advance pass_message) = omega arith
tokens_kept (advance wrap_end) = omega arith
tokens_kept (advance unlock_write) = omega arith
tokens_kept (advance up_full) = omega arith
tokens_kept (advance unlock_failed_write) = omega arith
tokens_kept (advance up_empty_back) = omega arith
tokens_kept (read count) = omega arith
tokens_kept (write bytes) = omega arith
tokens_kept no_full = omega arith
tokens_kept no_lock_read = omega arith
tokens_kept failed_read = omega arith
tokens_kept no_empty = omega arith
tokens_kept no_lock_write = omega arith
tokens_kept (failed_write call h) = omega arith

pub lock_bound : (b : Bool) → lock_count b ≤ 1
lock_bound true = omega arith
lock_bound false = omega arith

-- The lock is held by one call or by none.
pub lock_kept :
    {m m' : Shared} {p q : Pc} (others : ℕ)
    → Move m p m' q
    → inside p + others ≡ lock_count m.locked
    → inside q + others ≡ lock_count m'.locked
lock_kept {m} others (advance (down_full h)) e = omega (arith, e, lock_bound m.locked)
lock_kept {m} others (advance (lock_read h)) e =
    omega (arith, e, lock_bound m.locked, ap lock_count h)
lock_kept {m} others (advance copy_out) e = omega (arith, e, lock_bound m.locked)
lock_kept {m} others (advance pass_start) e = omega (arith, e, lock_bound m.locked)
lock_kept {m} others (advance wrap_start) e = omega (arith, e, lock_bound m.locked)
lock_kept {m} others (advance unlock_read) e = omega (arith, e, lock_bound m.locked)
lock_kept {m} others (advance up_empty) e = omega (arith, e, lock_bound m.locked)
lock_kept {m} others (advance unlock_failed_read) e = omega (arith, e, lock_bound m.locked)
lock_kept {m} others (advance up_full_back) e = omega (arith, e, lock_bound m.locked)
lock_kept {m} others (advance (down_empty h)) e = omega (arith, e, lock_bound m.locked)
lock_kept {m} others (advance (lock_write h)) e =
    omega (arith, e, lock_bound m.locked, ap lock_count h)
lock_kept {m} others (advance pass_length) e = omega (arith, e, lock_bound m.locked)
lock_kept {m} others (advance store_length) e = omega (arith, e, lock_bound m.locked)
lock_kept {m} others (advance copy_in) e = omega (arith, e, lock_bound m.locked)
lock_kept {m} others (advance pass_message) e = omega (arith, e, lock_bound m.locked)
lock_kept {m} others (advance wrap_end) e = omega (arith, e, lock_bound m.locked)
lock_kept {m} others (advance unlock_write) e = omega (arith, e, lock_bound m.locked)
lock_kept {m} others (advance up_full) e = omega (arith, e, lock_bound m.locked)
lock_kept {m} others (advance unlock_failed_write) e = omega (arith, e, lock_bound m.locked)
lock_kept {m} others (advance up_empty_back) e = omega (arith, e, lock_bound m.locked)
lock_kept {m} others (read count) e = omega (arith, e, lock_bound m.locked)
lock_kept {m} others (write bytes) e = omega (arith, e, lock_bound m.locked)
lock_kept {m} others no_full e = omega (arith, e, lock_bound m.locked)
lock_kept {m} others no_lock_read e = omega (arith, e, lock_bound m.locked)
lock_kept {m} others failed_read e = omega (arith, e, lock_bound m.locked)
lock_kept {m} others no_empty e = omega (arith, e, lock_bound m.locked)
lock_kept {m} others no_lock_write e = omega (arith, e, lock_bound m.locked)
lock_kept {m} others (failed_write call h) e = omega (arith, e, lock_bound m.locked)

pub size-Advance : {m m' : Shared} {p q : Pc} → Advance m p m' q → m'.fifo.size ≡ m.fifo.size
size-Advance (down_full _) = refl
size-Advance (lock_read _) = refl
size-Advance copy_out = refl
size-Advance pass_start = refl
size-Advance wrap_start = refl
size-Advance unlock_read = refl
size-Advance up_empty = refl
size-Advance unlock_failed_read = refl
size-Advance up_full_back = refl
size-Advance (down_empty _) = refl
size-Advance (lock_write _) = refl
size-Advance pass_length = refl
size-Advance store_length = refl
size-Advance copy_in = refl
size-Advance pass_message = refl
size-Advance wrap_end = refl
size-Advance unlock_write = refl
size-Advance up_full = refl
size-Advance unlock_failed_write = refl
size-Advance up_empty_back = refl

pub size_kept : {m m' : Shared} {p q : Pc} → Move m p m' q → m'.fifo.size ≡ m.fifo.size
size_kept (advance a) = size-Advance a
size_kept (failed_write call h) = refl
size_kept (read count) = refl
size_kept (write bytes) = refl
size_kept no_full = refl
size_kept no_lock_read = refl
size_kept failed_read = refl
size_kept no_empty = refl
size_kept no_lock_write = refl

pub spoiled-Advance : {m m' : Shared} {p q : Pc} → Advance m p m' q → m'.spoiled ≡ m.spoiled
spoiled-Advance (down_full _) = refl
spoiled-Advance (lock_read _) = refl
spoiled-Advance copy_out = refl
spoiled-Advance pass_start = refl
spoiled-Advance wrap_start = refl
spoiled-Advance unlock_read = refl
spoiled-Advance up_empty = refl
spoiled-Advance unlock_failed_read = refl
spoiled-Advance up_full_back = refl
spoiled-Advance (down_empty _) = refl
spoiled-Advance (lock_write _) = refl
spoiled-Advance pass_length = refl
spoiled-Advance store_length = refl
spoiled-Advance copy_in = refl
spoiled-Advance pass_message = refl
spoiled-Advance wrap_end = refl
spoiled-Advance unlock_write = refl
spoiled-Advance up_full = refl
spoiled-Advance unlock_failed_write = refl
spoiled-Advance up_empty_back = refl

-- A device in which no copy has failed was so before.
pub was_clean : {m m' : Shared} {p q : Pc} → Move m p m' q → m'.spoiled ≡ false → m.spoiled ≡ false
was_clean (advance a) e = sym (spoiled-Advance a) ∙ e
was_clean (failed_write call h) e = absurd cc
was_clean (read count) e = e
was_clean (write bytes) e = e
was_clean no_full e = e
was_clean no_lock_read e = e
was_clean failed_read e = e
was_clean no_empty e = e
was_clean no_lock_write e = e
