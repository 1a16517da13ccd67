-- ===== src/Shell/Mode.antt =====
-- strmode of pmeunier-project/main.c: a mode as a string of ten letters.
use cs.Common.{ℕ, ◌+◌, ◌*◌, ◌/◌, ◌%◌, ◌≡◌, refl, List, [], ◌∷◌, ◌==◌, if◌then◌else◌, arith, false}
use cs.Fs.Translate.{is_dir}

-- `mask` is 2 ^ (n - 1) with n letters of "rwxrwxrwx" left.
unfoldable pub mode_letters : ℕ → ℕ → List ℕ → List ℕ
mode_letters mode mask [] = []
mode_letters mode mask (c ∷ cs) =
    (if mode / mask % 2 == 0 then b'-' else c) ∷ mode_letters mode (mask / 2) cs

abbrev pub letters : List ℕ
letters = b'r' ∷ b'w' ∷ b'x' ∷ b'r' ∷ b'w' ∷ b'x' ∷ b'r' ∷ b'w' ∷ b'x' ∷ []

unfoldable pub strmode : ℕ → List ℕ
strmode mode = (if is_dir mode then b'd' else b'-') ∷ mode_letters mode 256 letters

-- The number that a string of letters stands for.
unfoldable pub permissions : List ℕ → ℕ → ℕ
permissions [] acc = acc
permissions (c ∷ cs) acc = permissions cs (2 * acc + (if c == b'-' then 0 else 1))

unfoldable pub mode_bits : List ℕ → ℕ
mode_bits [] = 0
mode_bits (c ∷ cs) = permissions cs 0

letter_bit :
    (mode mask c : ℕ)
    → (c == b'-') ≡ false
    → (if (if mode / mask % 2 == 0 then b'-' else c) == b'-' then 0 else 1) ≡ mode / mask % 2
letter_bit mode mask c other = ground arith

-- The letters behind the first give back the permission bits of the mode.
pub mode_bits-strmode : (mode : ℕ) → mode_bits (strmode mode) ≡ mode % 512
unfolding strmode mode_bits mode_letters permissions
mode_bits-strmode mode = omega (
  arith,
  letter_bit mode 256 b'r' refl,
  letter_bit mode 128 b'w' refl,
  letter_bit mode 64 b'x' refl,
  letter_bit mode 32 b'r' refl,
  letter_bit mode 16 b'w' refl,
  letter_bit mode 8 b'x' refl,
  letter_bit mode 4 b'r' refl,
  letter_bit mode 2 b'w' refl,
  letter_bit mode 1 b'x' refl,
)
