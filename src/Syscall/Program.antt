-- ===== src/Syscall/Program.antt =====
-- pa2/syscall.c, the program that tries the system call, and pa2/modules/rmiller6.c, a module that only prints.
use cs.Common.{ℕ, ◌≡◌, refl, Option, none, some, List, [], ◌∷◌, ◌++◌}
use cs.Fs.Dir.{cstr}
use cs.Syscall.{Copies, rmiller6_syscall}

-- `word`, whose text has 33 letters.
abbrev pub word : List ℕ
word =
    let test = b't' ∷ b'e' ∷ b's' ∷ b't' ∷ [] in
    test ++ test ++ test ++ test ++ test ++ test ++ test ++ test ++ (b't' ∷ [])

-- What the program prints: the text before, the result, `none` for -1, and the text after. The kernel
-- reads and writes the first 32 bytes.
pub record Printed : Type 0 where
  pub before : List ℕ
  pub result : Option ℕ
  pub after : Option (List ℕ)

unfoldable pub main : Copies → Printed
main copies =
    let (result, after) = rmiller6_syscall copies (some (word ++ (0 ∷ []))) in
    record {
      before = word;
      result = result;
      after = elim after [ none ↦ none | some bytes ↦ some (cstr bytes) ];
    }

unfoldable pub hello_init : ℕ
hello_init = 0

-- The text has no room for its NUL in 32 bytes: the call is refused, whatever the kernel could copy, and the
-- text stays.
pub main_refused :
    (copies : Copies) → main copies ≡ record { before = word; result = none; after = some word }
unfolding main rmiller6_syscall cstr
main_refused copies = refl
