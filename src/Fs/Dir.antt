-- ===== src/Fs/Dir.antt =====
-- The loops over one directory block in pmeunier-project/fs.c: 32 entries with fixed name arrays.
pub mod Laws
pub mod Edits
use cs.Common.{
  ℕ, zero, suc, ◌+◌, Bool, true, false, not, ◌&&◌, Option, none, some, List, [], ◌∷◌, ◌++◌, length,
  drop, replicate, ◌==◌, if◌then◌else◌,
}
use cs.Fs.Layout.{Dirent, blank_dirent, filename_size}

abbrev pub Name : Type 0
Name = List ℕ

-- The C string that an array holds: its bytes before the first NUL.
unfoldable pub cstr : List ℕ → Name
cstr [] = []
cstr (c ∷ cs) = if c == 0 then [] else c ∷ cstr cs

-- `strcmp(a, b) == 0`, for the strings themselves.
unfoldable pub str_eq : Name → Name → Bool
str_eq [] [] = true
str_eq [] (_ ∷ _) = false
str_eq (_ ∷ _) [] = false
str_eq (a ∷ as') (b ∷ bs) = a == b && str_eq as' bs

-- `strcpy(array, name)`: the name and its NUL; the bytes behind them stay.
unfoldable pub strcpy : List ℕ → Name → List ℕ
strcpy array name = name ++ (0 ∷ drop (length name + 1) array)

-- `valid && strcmp(name) == 0`
unfoldable pub entry_is : Name → Dirent → Bool
unfolding cstr str_eq
entry_is name d = d.valid && str_eq (cstr d.name) name

-- The inode of the first entry with the name, or 0.
unfoldable pub find_in_dir : List Dirent → Name → ℕ
find_in_dir [] name = 0
find_in_dir (d ∷ ds) name = if entry_is name d then d.inode else find_in_dir ds name

unfoldable pub find_free_dir : List Dirent → Option ℕ
find_free_dir [] = none
find_free_dir (d ∷ ds) =
    if d.valid then (elim (find_free_dir ds) [ none ↦ none | some i ↦ some (suc i) ]) else some zero

unfoldable pub is_empty_dir : List Dirent → Bool
is_empty_dir [] = true
is_empty_dir (d ∷ ds) = if d.valid then false else is_empty_dir ds

-- The loop of `fs_unlink`: every entry with the name is wiped.
unfoldable pub wipe_named : Name → List Dirent → List Dirent
wipe_named name [] = []
wipe_named name (d ∷ ds) = (if entry_is name d then blank_dirent else d) ∷ wipe_named name ds

-- The loop of `fs_rmdir`: every valid entry is wiped.
unfoldable pub wipe_valid : List Dirent → List Dirent
wipe_valid [] = []
wipe_valid (d ∷ ds) = (if d.valid then blank_dirent else d) ∷ wipe_valid ds

-- The loop of `fs_rename`: every entry with the old name gets the new one, in a cleared array.
unfoldable pub rename_named : Name → Name → List Dirent → List Dirent
unfolding strcpy
rename_named old new [] = []
rename_named old new (d ∷ ds) =
    (if entry_is old d then record d { name = strcpy (replicate filename_size 0) new } else d)
    ∷ rename_named old new ds

-- What `set_attributes_and_update` stores at the free index: name, inode number and valid flag.
unfoldable pub add_entry : ℕ → Name → ℕ → List Dirent → List Dirent
unfolding strcpy
add_entry i name inode [] = []
add_entry zero name inode (d ∷ ds) =
    record d { valid = true; inode = inode; name = strcpy d.name name } ∷ ds
add_entry (suc i) name inode (d ∷ ds) = d ∷ add_entry i name inode ds
