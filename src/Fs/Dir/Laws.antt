-- ===== src/Fs/Dir/Laws.antt =====
-- One directory block of pmeunier-project/fs.c as a table from names to inode numbers.
use cs.Common.{
  ℕ, ◌+◌, ◌<◌, ◌≡◌, refl, ◌≢◌, sym, ◌∙◌, true, false, List, [], ◌∷◌, ◌++◌, arith, Bool-cases,
  length, drop, length-append, length-drop, inl, inr,
}
use cs.Fs.Layout.{Dirent, blank_dirent, filename_size}
use cs.Fs.Layout.Codec.{All}
use cs.Fs.Dir.{Name, cstr, str_eq, strcpy, entry_is, find_in_dir, wipe_named}

-- A string has no NUL inside.
abbrev pub NoNul : Name → Type 0
NoNul = All (λ c. c ≢ 0)

-- What `parse` hands on as a name: a string that fits an entry with its NUL.
pub record IsName (name : Name) : Type 0 where
  pub no_nul : NoNul name
  pub fits : length name < filename_size

pub str_eq→eq : (a b : Name) → str_eq a b ≡ true → a ≡ b
unfolding str_eq
str_eq→eq [] [] e = refl
str_eq→eq [] (y ∷ ys) e = cc
str_eq→eq (x ∷ xs) [] e = cc
str_eq→eq (x ∷ xs) (y ∷ ys) e = ground (arith, str_eq→eq xs ys)

pub str_eq_refl : (a : Name) → str_eq a a ≡ true
unfolding str_eq
str_eq_refl [] = refl
str_eq_refl (x ∷ xs) = ground (arith, str_eq_refl xs)

pub str_eq_ne : (a b : Name) → a ≢ b → str_eq a b ≡ false
str_eq_ne a b ne = elim (Bool-cases (str_eq a b)) [
  | inl e ↦ absurd (ne (str_eq→eq a b e))
  | inr e ↦ e
]

cstr-append : (name rest : List ℕ) → NoNul name → cstr (name ++ (0 ∷ rest)) ≡ name
unfolding cstr
cstr-append [] rest h = refl
cstr-append (c ∷ cs) rest h = ground (arith, cstr-append cs rest h.1)

pub cstr-strcpy : (array : List ℕ) (name : Name) → NoNul name → cstr (strcpy array name) ≡ name
unfolding strcpy
cstr-strcpy array name h = cstr-append name (drop (length name + 1) array) h

pub length-strcpy :
    (array : List ℕ) (name : Name)
    → length array ≡ filename_size
    → length name < filename_size
    → length (strcpy array name) ≡ filename_size
unfolding strcpy
length-strcpy array name sized fits = omega (
  arith,
  length-append name (0 ∷ drop (length name + 1) array),
  length-drop (length name + 1) array,
)

-- No valid entry has the name.
abbrev pub Absent : Name → List Dirent → Type 0
Absent name = All (λ d. entry_is name d ≡ false)

-- Every valid entry has an inode number other than 0, which `find_in_dir` returns for no entry.
abbrev pub NoZero : List Dirent → Type 0
NoZero = All (λ d. d.valid ≡ true → d.inode ≢ 0)

pub entry_is→valid : (name : Name) (d : Dirent) → entry_is name d ≡ true → d.valid ≡ true
unfolding entry_is
entry_is→valid name d e = ground arith

pub entry_is→eq : (name : Name) (d : Dirent) → entry_is name d ≡ true → cstr d.name ≡ name
unfolding entry_is
entry_is→eq name d e = str_eq→eq (cstr d.name) name (ground arith)

entry_is_ne :
    (name other : Name) (d : Dirent)
    → name ≢ other
    → entry_is name d ≡ true
    → entry_is other d ≡ false
entry_is_ne name other d ne e = elim (Bool-cases (entry_is other d)) [
  | inl f ↦ absurd (ne (sym (entry_is→eq name d e) ∙ entry_is→eq other d f))
  | inr f ↦ f
]

pub find-Absent : (name : Name) (es : List Dirent) → Absent name es → find_in_dir es name ≡ 0
unfolding find_in_dir
find-Absent name [] h = refl
find-Absent name (d ∷ ds) h = ground (arith, find-Absent name ds h.1)

-- In a block whose valid entries have inode numbers, 0 is returned only for a name that is absent.
pub Absent-of_find :
    (name : Name) (es : List Dirent) → NoZero es → find_in_dir es name ≡ 0 → Absent name es
unfolding find_in_dir
Absent-of_find name [] h e = tt
Absent-of_find name (d ∷ ds) h e = elim (Bool-cases (entry_is name d)) [
  | inl f ↦ absurd (h.0 (entry_is→valid name d f) (rw f at e))
  | inr f ↦ (f, Absent-of_find name ds h.1 (rw f at e))
]

entry_is-blank : (name : Name) → entry_is name blank_dirent ≡ false
unfolding entry_is
entry_is-blank name = refl

-- `fs_unlink`'s loop leaves no entry of the name and every other name as it was.
pub find-wipe_self : (name : Name) (es : List Dirent) → find_in_dir (wipe_named name es) name ≡ 0
unfolding find_in_dir wipe_named
find-wipe_self name [] = refl
find-wipe_self name (d ∷ ds) = ground (arith, find-wipe_self name ds, entry_is-blank name)

pub find-wipe_ne :
    (name other : Name) (es : List Dirent)
    → name ≢ other
    → find_in_dir (wipe_named name es) other ≡ find_in_dir es other
unfolding find_in_dir wipe_named
find-wipe_ne name other [] ne = refl
find-wipe_ne name other (d ∷ ds) ne =
    ground (arith, find-wipe_ne name other ds ne, entry_is-blank other, entry_is_ne name other d ne)
