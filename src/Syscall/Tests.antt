-- ===== src/Syscall/Tests.antt =====
-- The theorem about pa2/my_syscall/my_syscall.c at a short string, with a vowel behind its end.
use cs.Common.{
  ℕ, ◌≡◌, refl, some, List, ◌∷◌, ◌&&◌, arith, replicate, length, take, get_elem?, ltb,
  if◌then◌else◌,
}
use cs.Fs.Dir.{cstr}
use cs.Syscall.{rmiller6_syscall, replaced, counted, is_vowel}
use cs.Syscall.Laws.{whole, vowels, one_of, vowels_in, syscall_twice}

abbrev hey : List ℕ
hey = b'h' ∷ b'e' ∷ b'y' ∷ 0 ∷ b'a' ∷ replicate 27 0

-- The vowel behind the end is counted and replaced too.
hey_count :
    rmiller6_syscall whole (some hey)
    ≡ (some 3, some (b'h' ∷ b'R' ∷ b'R' ∷ 0 ∷ b'R' ∷ replicate 27 0))
unfolding rmiller6_syscall replaced counted is_vowel cstr replicate
hey_count = refl

syscall_twice_example :
    (memory : List ℕ) × (rmiller6_syscall whole (some hey)
      ≡ (some (vowels_in (take 31 hey)), some memory))
    × (length memory ≡ length hey)
    × ((i c : ℕ)
        → get_elem? hey i ≡ some c
        → get_elem? memory i ≡ some (if ltb i 31 && one_of vowels c then b'R' else c))
    × (rmiller6_syscall whole (some memory) ≡ (some 0, some memory))
unfolding cstr
syscall_twice_example = syscall_twice hey (omega arith)
