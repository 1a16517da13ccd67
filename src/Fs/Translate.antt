-- ===== src/Fs/Translate.antt =====
-- From a path to an inode number in pmeunier-project/fs.c: lookup, translate and translate_1.
pub mod Laws
use cs.Common.{
  ℕ, zero, suc, ◌+◌, ◌-◌, ◌/◌, ◌%◌, Bool, true, false, not, ◌&&◌, ◌||◌, Option, none, some, List,
  [], ◌∷◌, length, replicate, ◌==◌, if◌then◌else◌, Option-cases,
}
use cs.Fs.Layout.{Inode, decode_dir}
use cs.Fs.Monad.{
  State, M, pure, throw, crash, ◌>>=◌, ◌>>◌, gets, fail_if, enoent, enotdir, read_or_exit, inode_at,
  elem_at,
}
use cs.Fs.Dir.{Name, str_eq, find_in_dir}
use cs.Fs.Path.{Parsed, parse}

-- The file type in a mode: `S_ISDIR(mode)` and `S_ISREG(mode)`.
unfoldable pub is_dir : ℕ → Bool
is_dir mode = mode / 4096 % 16 == 4

unfoldable pub is_reg : ℕ → Bool
is_reg mode = mode / 4096 % 16 == 8

-- `read(disk, inode->direct[0], 1, entries)`: the entries of a directory.
unfoldable pub lookup : ℕ → Name → M ℕ
lookup inum name = do
  cur_dir ← inode_at inum
  b ← elem_at cur_dir.direct 0
  block ← read_or_exit b 1
  let inode = find_in_dir (decode_dir block) name
  fail_if (inode == 0) enoent
  pure inode

abbrev pub slash : List ℕ
slash = b'/' ∷ []

-- `strcmp(path, "/") == 0 || strlen(path) == 0`
abbrev pub is_root_path : List ℕ → Bool
is_root_path path = str_eq path slash || str_eq path []

-- The names of a path by `parse`'s two calls, one to count and one to copy; `none` stands for a
-- negative count. The second call's result is not looked at: `names` is used as it was filled.
unfoldable pub path_names : List ℕ → Option (List Name)
path_names path = elim (parse path none 0) [
  | none ↦ none
  | some p ↦
      if p.count == 0 then some [] else (elim (parse path (some (replicate p.count [])) p.count) [
        | none ↦ none
        | some q ↦ q.names
      ])
]

-- One round of the loop over the names.
unfoldable pub enter : ℕ → Name → M ℕ
enter inum name = do v ← inode_at inum; fail_if (not (is_dir v.mode)) enotdir; lookup inum name

unfoldable pub walk : ℕ → List Name → M ℕ
walk inum [] = pure inum
walk inum (name ∷ names) = enter inum name >>= λ next. walk next names

-- All names but the last, and the last, if there is one.
unfoldable pub split_last : List Name → List Name × Option Name
split_last [] = ([], none)
split_last (n ∷ []) = ([], some n)
split_last (n ∷ m ∷ ns) = let (front, last) = split_last (m ∷ ns) in (n ∷ front, last)

-- The parent's inode number and the leaf; `none` where the caller's array is left unset.
-- The walk from the root along all the names, where there are some.
abbrev walk_names : Option (List Name) → M ℕ
walk_names none s = throw enotdir s
walk_names (some names) s = walk s.root_inode names s

-- The walk along all but the last name, which is the leaf.
abbrev walk_parents : Option (List Name) → M (ℕ × Option Name)
walk_parents none s = throw enotdir s
walk_parents (some names) s =
    (walk s.root_inode (split_last names).0 >>= λ inum. pure (inum, (split_last names).1)) s

unfoldable pub translate : List ℕ → M ℕ
translate path s = if is_root_path path then pure s.root_inode s else walk_names (path_names path) s

-- The parent's inode number and the leaf; `none` where the caller's array is left unset.
unfoldable pub translate_1 : List ℕ → M (ℕ × Option Name)
translate_1 path s =
    if is_root_path path then pure (s.root_inode, none) s else walk_parents (path_names path) s
