-- ===== src/Fifo/Calls/Progress/Kinds.antt =====
-- The kinds of calls on the FIFO of rmiller-pa5/driver/scull.c: what each waits for, and when it goes on.
use cs.Common.{
  ℕ, ◌<◌, ◌≡◌, refl, ap, Bool, true, false, List, [], ◌∷◌, ◌++◌, arith, ◌⊎◌, inl, inr, Bool-cases,
}
use cs.Fs.Layout.Codec.{All}
use cs.Fifo.Calls.{
  Shared, Pc, idle, r_wait, r_token, r_in, r_copied, r_past, r_moved, r_failed, r_back, r_up,
  w_wait, w_token, w_in, w_len, w_copy, w_copied, w_past, w_moved, w_failed, w_back, w_up, Advance,
  down_full, lock_read, copy_out, pass_start, wrap_start, unlock_read, up_empty, unlock_failed_read,
  up_full_back, down_empty, lock_write, pass_length, store_length, copy_in, pass_message, wrap_end,
  unlock_write, up_full, unlock_failed_write, up_empty_back,
}
use cs.Fifo.Calls.Invariant.Counts.{total, has_full, has_empty, inside}

-- The calls that never wait, and those that wait for the lock, for a message and for a slot.
abbrev pub going : Pc → Bool
going (r_in _ _) = true
going (r_copied _ _) = true
going (r_past _ _) = true
going (r_moved _ _) = true
going r_failed = true
going r_back = true
going (r_up _ _) = true
going (w_in _ _) = true
going (w_len _ _) = true
going (w_copy _) = true
going w_copied = true
going w_past = true
going w_moved = true
going w_failed = true
going w_back = true
going w_up = true
going _ = false

abbrev pub queued : Pc → Bool
queued (r_token _ _) = true
queued (w_token _ _) = true
queued _ = false

abbrev pub is_reader : Pc → Bool
is_reader (r_wait _ _) = true
is_reader _ = false

abbrev pub is_writer : Pc → Bool
is_writer (w_wait _ _) = true
is_writer _ = false

-- A call that can be brought on.
unfoldable pub CanAdvance : Shared → Pc → Type 0
CanAdvance m p = (m' : Shared) × (q : Pc) × Advance m p m' q

pub going_lem : (m : Shared) (p : Pc) → going p ≡ true → CanAdvance m p
unfolding CanAdvance
going_lem m idle e = absurd cc
going_lem m (r_wait c l) e = absurd cc
going_lem m (r_token c l) e = absurd cc
going_lem m (r_in c l) e = (_, _, copy_out)
going_lem m (r_copied r g) e = (_, _, pass_start)
going_lem m (r_past r g) e = (_, _, wrap_start)
going_lem m (r_moved r g) e = (_, _, unlock_read)
going_lem m r_failed e = (_, _, unlock_failed_read)
going_lem m r_back e = (_, _, up_full_back)
going_lem m (r_up r g) e = (_, _, up_empty)
going_lem m (w_wait a b) e = absurd cc
going_lem m (w_token a b) e = absurd cc
going_lem m (w_in a b) e = (_, _, pass_length)
going_lem m (w_len a b) e = (_, _, store_length)
going_lem m (w_copy b) e = (_, _, copy_in)
going_lem m w_copied e = (_, _, pass_message)
going_lem m w_past e = (_, _, wrap_end)
going_lem m w_moved e = (_, _, unlock_write)
going_lem m w_failed e = (_, _, unlock_failed_write)
going_lem m w_back e = (_, _, up_empty_back)
going_lem m w_up e = (_, _, up_full)

pub queued_lem : (m : Shared) (p : Pc) → m.locked ≡ false → queued p ≡ true → CanAdvance m p
unfolding CanAdvance
queued_lem m idle h e = absurd cc
queued_lem m (r_wait c l) h e = absurd cc
queued_lem m (r_token c l) h e = (_, _, lock_read h)
queued_lem m (r_in c l) h e = absurd cc
queued_lem m (r_copied r g) h e = absurd cc
queued_lem m (r_past r g) h e = absurd cc
queued_lem m (r_moved r g) h e = absurd cc
queued_lem m r_failed h e = absurd cc
queued_lem m r_back h e = absurd cc
queued_lem m (r_up r g) h e = absurd cc
queued_lem m (w_wait a b) h e = absurd cc
queued_lem m (w_token a b) h e = (_, _, lock_write h)
queued_lem m (w_in a b) h e = absurd cc
queued_lem m (w_len a b) h e = absurd cc
queued_lem m (w_copy b) h e = absurd cc
queued_lem m w_copied h e = absurd cc
queued_lem m w_past h e = absurd cc
queued_lem m w_moved h e = absurd cc
queued_lem m w_failed h e = absurd cc
queued_lem m w_back h e = absurd cc
queued_lem m w_up h e = absurd cc

pub reader_lem : (m : Shared) (p : Pc) → 0 < m.fifo.full → is_reader p ≡ true → CanAdvance m p
unfolding CanAdvance
reader_lem m idle h e = absurd cc
reader_lem m (r_wait c l) h e = (_, _, down_full h)
reader_lem m (r_token c l) h e = absurd cc
reader_lem m (r_in c l) h e = absurd cc
reader_lem m (r_copied r g) h e = absurd cc
reader_lem m (r_past r g) h e = absurd cc
reader_lem m (r_moved r g) h e = absurd cc
reader_lem m r_failed h e = absurd cc
reader_lem m r_back h e = absurd cc
reader_lem m (r_up r g) h e = absurd cc
reader_lem m (w_wait a b) h e = absurd cc
reader_lem m (w_token a b) h e = absurd cc
reader_lem m (w_in a b) h e = absurd cc
reader_lem m (w_len a b) h e = absurd cc
reader_lem m (w_copy b) h e = absurd cc
reader_lem m w_copied h e = absurd cc
reader_lem m w_past h e = absurd cc
reader_lem m w_moved h e = absurd cc
reader_lem m w_failed h e = absurd cc
reader_lem m w_back h e = absurd cc
reader_lem m w_up h e = absurd cc

pub writer_lem : (m : Shared) (p : Pc) → 0 < m.fifo.empty → is_writer p ≡ true → CanAdvance m p
unfolding CanAdvance
writer_lem m idle h e = absurd cc
writer_lem m (r_wait c l) h e = absurd cc
writer_lem m (r_token c l) h e = absurd cc
writer_lem m (r_in c l) h e = absurd cc
writer_lem m (r_copied r g) h e = absurd cc
writer_lem m (r_past r g) h e = absurd cc
writer_lem m (r_moved r g) h e = absurd cc
writer_lem m r_failed h e = absurd cc
writer_lem m r_back h e = absurd cc
writer_lem m (r_up r g) h e = absurd cc
writer_lem m (w_wait a b) h e = (_, _, down_empty h)
writer_lem m (w_token a b) h e = absurd cc
writer_lem m (w_in a b) h e = absurd cc
writer_lem m (w_len a b) h e = absurd cc
writer_lem m (w_copy b) h e = absurd cc
writer_lem m w_copied h e = absurd cc
writer_lem m w_past h e = absurd cc
writer_lem m w_moved h e = absurd cc
writer_lem m w_failed h e = absurd cc
writer_lem m w_back h e = absurd cc
writer_lem m w_up h e = absurd cc

pub not_inside : (p : Pc) → going p ≡ false → inside p ≡ 0
not_inside idle e = refl
not_inside (r_wait c l) e = refl
not_inside (r_token c l) e = refl
not_inside (r_in c l) e = absurd cc
not_inside (r_copied r g) e = absurd cc
not_inside (r_past r g) e = absurd cc
not_inside (r_moved r g) e = absurd cc
not_inside r_failed e = absurd cc
not_inside r_back e = absurd cc
not_inside (r_up r g) e = absurd cc
not_inside (w_wait a b) e = refl
not_inside (w_token a b) e = refl
not_inside (w_in a b) e = absurd cc
not_inside (w_len a b) e = absurd cc
not_inside (w_copy b) e = absurd cc
not_inside w_copied e = absurd cc
not_inside w_past e = absurd cc
not_inside w_moved e = absurd cc
not_inside w_failed e = absurd cc
not_inside w_back e = absurd cc
not_inside w_up e = absurd cc

pub no_tokens : (p : Pc) → going p ≡ false → queued p ≡ false → (has_full p ≡ 0) × (has_empty p ≡ 0)
no_tokens idle e h = (refl, refl)
no_tokens (r_wait c l) e h = (refl, refl)
no_tokens (r_token c l) e h = absurd cc
no_tokens (r_in c l) e h = absurd cc
no_tokens (r_copied r g) e h = absurd cc
no_tokens (r_past r g) e h = absurd cc
no_tokens (r_moved r g) e h = absurd cc
no_tokens r_failed e h = absurd cc
no_tokens r_back e h = absurd cc
no_tokens (r_up r g) e h = absurd cc
no_tokens (w_wait a b) e h = (refl, refl)
no_tokens (w_token a b) e h = absurd cc
no_tokens (w_in a b) e h = absurd cc
no_tokens (w_len a b) e h = absurd cc
no_tokens (w_copy b) e h = absurd cc
no_tokens w_copied e h = absurd cc
no_tokens w_past e h = absurd cc
no_tokens w_moved e h = absurd cc
no_tokens w_failed e h = absurd cc
no_tokens w_back e h = absurd cc
no_tokens w_up e h = absurd cc

-- A call that matches a test, or none does.
pub scan :
    (P : Pc → Bool) (xs : List Pc)
    → ((p : Pc) × (P p ≡ true)
        × (before : List Pc) × (after : List Pc) × (xs ≡ before ++ (p ∷ after)))
      ⊎ All (λ p. P p ≡ false) xs
scan P [] = inr tt
scan P (x ∷ xs) = elim (Bool-cases (P x)) [
  | inl hit ↦ inl (x, hit, [], xs, refl)
  | inr miss ↦ elim (scan P xs) [
    | inl (p, hit, before, after, split) ↦ inl (p, hit, x ∷ before, after, ap (λ t. x ∷ t) split)
    | inr none ↦ inr (miss, none)
  ]
]

pub total-zero : (g : Pc → ℕ) (xs : List Pc) → All (λ p. g p ≡ 0) xs → total g xs ≡ 0
unfolding total
total-zero g [] a = refl
total-zero g (x ∷ xs) a = omega (arith, a.0, total-zero g xs a.1)

unfoldable pub Still : Pc → Type 0
Still p = (going p ≡ false) × (queued p ≡ false)

pub only_readers : (p : Pc) → Still p → is_writer p ≡ false → (p ≡ idle) ⊎ (is_reader p ≡ true)
unfolding Still
only_readers idle h e = inl refl
only_readers (r_wait c l) h e = inr refl
only_readers (r_token c l) h e = absurd (let (g, k) = h in cc)
only_readers (r_in c l) h e = absurd (let (g, k) = h in cc)
only_readers (r_copied r g) h e = absurd (let (g, k) = h in cc)
only_readers (r_past r g) h e = absurd (let (g, k) = h in cc)
only_readers (r_moved r g) h e = absurd (let (g, k) = h in cc)
only_readers r_failed h e = absurd (let (g, k) = h in cc)
only_readers r_back h e = absurd (let (g, k) = h in cc)
only_readers (r_up r g) h e = absurd (let (g, k) = h in cc)
only_readers (w_wait a b) h e = absurd cc
only_readers (w_token a b) h e = absurd (let (g, k) = h in cc)
only_readers (w_in a b) h e = absurd (let (g, k) = h in cc)
only_readers (w_len a b) h e = absurd (let (g, k) = h in cc)
only_readers (w_copy b) h e = absurd (let (g, k) = h in cc)
only_readers w_copied h e = absurd (let (g, k) = h in cc)
only_readers w_past h e = absurd (let (g, k) = h in cc)
only_readers w_moved h e = absurd (let (g, k) = h in cc)
only_readers w_failed h e = absurd (let (g, k) = h in cc)
only_readers w_back h e = absurd (let (g, k) = h in cc)
only_readers w_up h e = absurd (let (g, k) = h in cc)

pub only_writers : (p : Pc) → Still p → is_reader p ≡ false → (p ≡ idle) ⊎ (is_writer p ≡ true)
unfolding Still
only_writers idle h e = inl refl
only_writers (r_wait c l) h e = absurd cc
only_writers (r_token c l) h e = absurd (let (g, k) = h in cc)
only_writers (r_in c l) h e = absurd (let (g, k) = h in cc)
only_writers (r_copied r g) h e = absurd (let (g, k) = h in cc)
only_writers (r_past r g) h e = absurd (let (g, k) = h in cc)
only_writers (r_moved r g) h e = absurd (let (g, k) = h in cc)
only_writers r_failed h e = absurd (let (g, k) = h in cc)
only_writers r_back h e = absurd (let (g, k) = h in cc)
only_writers (r_up r g) h e = absurd (let (g, k) = h in cc)
only_writers (w_wait a b) h e = inr refl
only_writers (w_token a b) h e = absurd (let (g, k) = h in cc)
only_writers (w_in a b) h e = absurd (let (g, k) = h in cc)
only_writers (w_len a b) h e = absurd (let (g, k) = h in cc)
only_writers (w_copy b) h e = absurd (let (g, k) = h in cc)
only_writers w_copied h e = absurd (let (g, k) = h in cc)
only_writers w_past h e = absurd (let (g, k) = h in cc)
only_writers w_moved h e = absurd (let (g, k) = h in cc)
only_writers w_failed h e = absurd (let (g, k) = h in cc)
only_writers w_back h e = absurd (let (g, k) = h in cc)
only_writers w_up h e = absurd (let (g, k) = h in cc)

pub only_idle : (p : Pc) → (p ≡ idle) ⊎ (is_writer p ≡ true) → is_writer p ≡ false → p ≡ idle
only_idle p (inl e) h = e
only_idle p (inr e) h = absurd cc
