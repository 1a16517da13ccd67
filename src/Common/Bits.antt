-- ===== src/Common/Bits.antt =====
-- One bit of a number, and a bitmap of bytes: bit `i` is bit `i % 8` of byte `i / 8`, as FD_ISSET,
-- FD_SET and FD_CLR of <sys/select.h> lay it out on a little-endian machine.
use Prim.Native.Nat.{ℕ, zero, suc, ◌+◌, ◌*◌, ◌/◌, ◌%◌, ◌<◌}
use mathlib.Core.Path.{◌≡◌}
use mathlib.Core.Bool.{Bool, true, false}
use mathlib.Core.List.{List}
use native.Mathlib.Omega.{arith}
use native.Mathlib.Decide.{ℕ_discrete}
use cs.Common.Tests.{◌==◌, if◌then◌else◌}
use cs.Common.Lists.{length, get_or, set, get_or-set_self, get_or-set_ne, length-set}

unfoldable pub bit : ℕ → ℕ → Bool
bit b zero = b % 2 == 1
bit b (suc k) = bit (b / 2) k

unfoldable pub set_bit : ℕ → ℕ → ℕ
set_bit b zero = 2 * (b / 2) + 1
set_bit b (suc k) = 2 * set_bit (b / 2) k + b % 2

unfoldable pub clear_bit : ℕ → ℕ → ℕ
clear_bit b zero = 2 * (b / 2)
clear_bit b (suc k) = 2 * clear_bit (b / 2) k + b % 2

pub bit-set_bit : (b k j : ℕ) → bit (set_bit b k) j ≡ (if k == j then true else bit b j)
unfolding bit set_bit
bit-set_bit b zero zero = ground arith
bit-set_bit b zero (suc j) =
    let e : (2 * (b / 2) + 1) / 2 ≡ b / 2 = omega arith in rw e (ground arith)
bit-set_bit b (suc k) zero = ground arith
bit-set_bit b (suc k) (suc j) =
    let e : (2 * set_bit (b / 2) k + b % 2) / 2 ≡ set_bit (b / 2) k = omega arith in
    rw e (ground (arith, bit-set_bit (b / 2) k j))

pub bit-clear_bit : (b k j : ℕ) → bit (clear_bit b k) j ≡ (if k == j then false else bit b j)
unfolding bit clear_bit
bit-clear_bit b zero zero = ground arith
bit-clear_bit b zero (suc j) = let e : 2 * (b / 2) / 2 ≡ b / 2 = omega arith in rw e (ground arith)
bit-clear_bit b (suc k) zero = ground arith
bit-clear_bit b (suc k) (suc j) =
    let e : (2 * clear_bit (b / 2) k + b % 2) / 2 ≡ clear_bit (b / 2) k = omega arith in
    rw e (ground (arith, bit-clear_bit (b / 2) k j))

abbrev pub Bitmap : Type 0
Bitmap = List ℕ

-- `FD_ISSET(i, m)`, `FD_SET(i, m)` and `FD_CLR(i, m)`. A bit past the end of `m` is no bit of the
-- array: it reads as clear and is not written.
unfoldable pub fd_isset : ℕ → Bitmap → Bool
fd_isset i m = bit (get_or m (i / 8) 0) (i % 8)

unfoldable pub fd_set : ℕ → Bitmap → Bitmap
fd_set i m = set m (i / 8) (set_bit (get_or m (i / 8) 0) (i % 8))

unfoldable pub fd_clr : ℕ → Bitmap → Bitmap
fd_clr i m = set m (i / 8) (clear_bit (get_or m (i / 8) 0) (i % 8))

pub length-fd_set : (i : ℕ) (m : Bitmap) → length (fd_set i m) ≡ length m
unfolding fd_set
length-fd_set i m = length-set m _ _

pub length-fd_clr : (i : ℕ) (m : Bitmap) → length (fd_clr i m) ≡ length m
unfolding fd_clr
length-fd_clr i m = length-set m _ _

module _ (i j : ℕ) (m : Bitmap) (inside : i < 8 * length m) where
  pub fd_isset-fd_set : fd_isset j (fd_set i m) ≡ (if i == j then true else fd_isset j m)
  unfolding fd_isset fd_set
  fd_isset-fd_set = elim (ℕ_discrete (i / 8) (j / 8)) [
    | yes e ↦ rw (← e) (
        ground (
          arith,
          get_or-set_self m (i / 8) (set_bit (get_or m (i / 8) 0) (i % 8)) 0,
          bit-set_bit (get_or m (i / 8) 0) (i % 8) (j % 8),
        ))
    | no ne ↦ ground (arith, get_or-set_ne m (set_bit (get_or m (i / 8) 0) (i % 8)) 0 ne)
  ]

  pub fd_isset-fd_clr : fd_isset j (fd_clr i m) ≡ (if i == j then false else fd_isset j m)
  unfolding fd_isset fd_clr
  fd_isset-fd_clr = elim (ℕ_discrete (i / 8) (j / 8)) [
    | yes e ↦ rw (← e) (
        ground (
          arith,
          get_or-set_self m (i / 8) (clear_bit (get_or m (i / 8) 0) (i % 8)) 0,
          bit-clear_bit (get_or m (i / 8) 0) (i % 8) (j % 8),
        ))
    | no ne ↦ ground (arith, get_or-set_ne m (clear_bit (get_or m (i / 8) 0) (i % 8)) 0 ne)
  ]
