-- ===== src/Syscall/Laws.antt =====
-- What the system call of pa2/my_syscall/my_syscall.c leaves in the user's memory.
use cs.Common.{
  ℕ, zero, suc, ◌<◌, ◌≡◌, refl, ap, ap₂, Bool, false, ◌&&◌, ◌||◌, some, List, [], ◌∷◌, arith,
  length, take, get_elem?, ltb, ◌==◌, if◌then◌else◌,
}
use cs.Fs.Dir.{cstr}
use cs.Syscall.{Copies, is_vowel, replaced, counted, rmiller6_syscall}

length-cstr : (n : ℕ) (cs : List ℕ) → length (cstr (replaced n cs)) ≡ length (cstr cs)
unfolding cstr replaced is_vowel
length-cstr zero cs = refl
length-cstr (suc n) [] = refl
length-cstr (suc n) (c ∷ cs) = ground (arith, length-cstr n cs)

counted-replaced : (n : ℕ) (cs : List ℕ) → counted n (replaced n cs) ≡ 0
unfolding counted replaced is_vowel
counted-replaced zero cs = refl
counted-replaced (suc n) [] = refl
counted-replaced (suc n) (c ∷ cs) = ground (arith, counted-replaced n cs)

replaced-replaced : (n : ℕ) (cs : List ℕ) → replaced n (replaced n cs) ≡ replaced n cs
unfolding replaced is_vowel
replaced-replaced zero cs = refl
replaced-replaced (suc n) [] = refl
replaced-replaced (suc n) (c ∷ cs) = ap₂ (λ x xs. x ∷ xs) (ground arith) (replaced-replaced n cs)

-- The letters that are replaced.
abbrev pub vowels : List ℕ
vowels = b'a' ∷ b'e' ∷ b'i' ∷ b'o' ∷ b'u' ∷ b'y' ∷ []

unfoldable pub one_of : List ℕ → ℕ → Bool
one_of [] c = false
one_of (x ∷ xs) c = c == x || one_of xs c

-- How many of the bytes are vowels.
unfoldable pub vowels_in : List ℕ → ℕ
vowels_in [] = 0
vowels_in (c ∷ cs) = if one_of vowels c then suc (vowels_in cs) else vowels_in cs

is_vowel_lem : (c : ℕ) → is_vowel c ≡ one_of vowels c
unfolding is_vowel one_of
is_vowel_lem c = ground arith

counted_lem : (n : ℕ) (cs : List ℕ) → counted n cs ≡ vowels_in (take n cs)
unfolding counted vowels_in take
counted_lem zero cs = refl
counted_lem (suc n) [] = refl
counted_lem (suc n) (c ∷ cs) = ground (arith, is_vowel_lem c, counted_lem n cs)

length-replaced : (n : ℕ) (cs : List ℕ) → length (replaced n cs) ≡ length cs
unfolding replaced
length-replaced zero cs = refl
length-replaced (suc n) [] = refl
length-replaced (suc n) (c ∷ cs) = ap suc (length-replaced n cs)

-- The byte at `i`, where the first `n` have been replaced.
replaced_lem :
    (n i : ℕ) (cs : List ℕ) {c : ℕ}
    → get_elem? cs i ≡ some c
    → get_elem? (replaced n cs) i ≡ some (if ltb i n && one_of vowels c then b'R' else c)
unfolding replaced
replaced_lem zero i cs e = ground (arith, e)
replaced_lem (suc n) i [] e = absurd cc
replaced_lem (suc n) zero (x ∷ cs) e = ground (arith, is_vowel_lem x, e)
replaced_lem (suc n) (suc i) (x ∷ cs) {c} e =
    let same : ltb (suc i) (suc n) ≡ ltb i n = ground arith in rw same (replaced_lem n i cs e)

abbrev pub whole : Copies
whole = record { from_missed = 0; to_missed = 0 }

-- A call on a string of less than 32 bytes, all copied, returns the number of vowels among the 31
-- bytes from its start on, also behind its NUL, and leaves as many bytes, in which each of these
-- vowels is an R and any other byte is as it was; a second call then returns 0 and changes nothing.
pub syscall_twice :
    (user : List ℕ)
    → length (cstr user) < 32
    → (memory : List ℕ) × (rmiller6_syscall whole (some user)
        ≡ (some (vowels_in (take 31 user)), some memory))
      × (length memory ≡ length user)
      × ((i c : ℕ)
          → get_elem? user i ≡ some c
          → get_elem? memory i ≡ some (if ltb i 31 && one_of vowels c then b'R' else c))
      × (rmiller6_syscall whole (some memory) ≡ (some 0, some memory))
unfolding rmiller6_syscall
syscall_twice user short = (
  replaced 31 user,
  rw (← counted_lem 31 user) (ground arith),
  length-replaced 31 user,
  λ i c e. replaced_lem 31 i user e,
  rw (length-cstr 31 user, counted-replaced 31 user, replaced-replaced 31 user) (ground arith),
)
