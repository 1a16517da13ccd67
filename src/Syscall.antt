-- ===== src/Syscall.antt =====
-- pa2/my_syscall/my_syscall.c: a system call that replaces the vowels of a user's string by 'R' and
-- counts them.
pub mod Laws
pub mod Program
mod Tests
use cs.Common.{
  ℕ, zero, suc, ◌+◌, ◌-◌, Bool, true, false, not, ◌||◌, Option, none, some, List, [], ◌∷◌, ◌++◌,
  length, take, drop, ltb, ◌==◌, if◌then◌else◌,
}
use cs.Fs.Dir.{cstr}

-- How many bytes copy_from_user and copy_to_user do not copy.
pub record Copies : Type 0 where
  pub from_missed : ℕ
  pub to_missed : ℕ

unfoldable pub is_vowel : ℕ → Bool
is_vowel c = c == b'a' || c == b'e' || c == b'i' || c == b'o' || c == b'u' || c == b'y'

-- The loop over the first `n` bytes: the buffer and `count`.
unfoldable pub replaced : ℕ → List ℕ → List ℕ
replaced zero buffer = buffer
replaced (suc n) [] = []
replaced (suc n) (c ∷ cs) = (if is_vowel c then b'R' else c) ∷ replaced n cs

unfoldable pub counted : ℕ → List ℕ → ℕ
counted zero buffer = 0
counted (suc n) [] = 0
counted (suc n) (c ∷ cs) = (if is_vowel c then 1 else 0) + counted n cs

-- `user` is what the 32 bytes from the string on hold, and `none` a null pointer. The result is
-- `none` for -1, or the count, and the bytes afterwards.
unfoldable pub rmiller6_syscall : Copies → Option (List ℕ) → Option ℕ × Option (List ℕ)
rmiller6_syscall copies none = (none, none)
rmiller6_syscall copies (some user) =
    let buffer = replaced 31 user in
    if ltb 32 (length (cstr user) + 1)
    then (none, some user)
    else if not (copies.from_missed == 0)
    then (none, some user)
    else if not (copies.to_missed == 0)
    then (none, some (take (32 - copies.to_missed) buffer ++ drop (32 - copies.to_missed) user))
    else (some (counted 31 user), some buffer)
