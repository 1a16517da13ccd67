-- ===== src/Fifo/Memory.antt =====
-- Reading back what was stored in the buffer of rmiller-pa5/driver/scull.c.
use cs.Common.{
  ℕ, zero, suc, ◌+◌, ◌-◌, ◌≤◌, ◌<◌, ◌≡◌, refl, sym, ap₂, ◌∙◌, ◌⊎◌, List, [], ◌∷◌, arith, length,
  get_or, drop,
}
use cs.Fifo.{load, overlay}

-- A load whose bytes are all outside what was stored.
pub load-overlay_apart :
    (mem : ℕ → ℕ) (p : ℕ) (bytes : List ℕ) (a n : ℕ)
    → a + n ≤ p ⊎ p + length bytes ≤ a
    → load (overlay mem p bytes) a n ≡ load mem a n
unfolding load overlay
load-overlay_apart mem p bytes a zero h = refl
load-overlay_apart mem p bytes a (suc n) h =
    ap₂ (λ x xs. x ∷ xs) (ground arith) (load-overlay_apart mem p bytes (a + 1) n (ground arith))

drop-get_or : (xs : List ℕ) (j : ℕ) → j < length xs → drop j xs ≡ get_or xs j 0 ∷ drop (suc j) xs
unfolding drop
drop-get_or [] j h = absurd (omega arith)
drop-get_or (x ∷ xs) zero h = refl
drop-get_or (x ∷ xs) (suc j) h = drop-get_or xs j (omega arith)

drop_end : (xs : List ℕ) (j : ℕ) → j ≡ length xs → drop j xs ≡ []
unfolding drop
drop_end [] zero e = refl
drop_end [] (suc j) e = refl
drop_end (x ∷ xs) zero e = absurd (omega arith)
drop_end (x ∷ xs) (suc j) e = drop_end xs j (omega arith)

overlay_inside :
    (mem : ℕ → ℕ) (p : ℕ) (bytes : List ℕ) (a j : ℕ)
    → j < length bytes
    → p + j ≡ a
    → overlay mem p bytes a ≡ get_or bytes j 0
unfolding overlay
overlay_inside mem p bytes a j h e = let d : a - p ≡ j = omega arith in rw d (ground arith)

load_rest :
    (mem : ℕ → ℕ) (p : ℕ) (bytes : List ℕ) (a j m : ℕ)
    → j + m ≡ length bytes
    → p + j ≡ a
    → load (overlay mem p bytes) a m ≡ drop j bytes
unfolding load
load_rest mem p bytes a j zero e at_a = sym (drop_end bytes j (omega arith))
load_rest mem p bytes a j (suc m) e at_a =
    ap₂ (λ x xs. x ∷ xs) (overlay_inside mem p bytes a j (omega arith) at_a)
      (load_rest mem p bytes (a + 1) (suc j) m (omega arith) (omega arith))
    ∙ sym (drop-get_or bytes j (omega arith))

-- The stored bytes are loaded again.
pub load-overlay :
    (mem : ℕ → ℕ) (p : ℕ) (bytes : List ℕ) (n : ℕ)
    → length bytes ≡ n
    → load (overlay mem p bytes) p n ≡ bytes
unfolding drop
load-overlay mem p bytes n e = load_rest mem p bytes p 0 n (omega arith) (omega arith)
