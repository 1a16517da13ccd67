-- ===== src/Fs/Remove/Laws.antt =====
-- What fs_rmdir of pmeunier-project/fs.c does to the parent directory.
use cs.Common.{ℕ, ◌≡◌, refl, true, false, Option, List, [], ◌∷◌, arith}
use cs.Fs.Layout.{Dirent, Inode}
use cs.Fs.Monad.{State, done, fail, enotempty}
use cs.Fs.Sound.{IsSound}
use cs.Fs.Dir.{Name, str_eq, entry_is, find_in_dir, is_empty_dir, wipe_valid}
use cs.Fs.Directory.{IsDirectory, entries_at, read_lem, elem_at_lem, inode_at_lem}
use cs.Fs.Translate.{slash, translate, translate_1}
use cs.Fs.Remove.{fs_rmdir}

-- An empty directory has no valid entry, so the loop over it changes nothing.
wipe-empty : (es : List Dirent) → is_empty_dir es ≡ true → wipe_valid es ≡ es
unfolding is_empty_dir wipe_valid
wipe-empty [] e = refl
wipe-empty (d ∷ ds) e = ground (arith, wipe-empty ds)

find-empty : (es : List Dirent) (name : Name) → is_empty_dir es ≡ true → find_in_dir es name ≡ 0
unfolding is_empty_dir find_in_dir entry_is
find-empty [] name e = refl
find-empty (d ∷ ds) name e = ground (arith, find-empty ds name)

module _ (s : State) (path : List ℕ) (h : IsSound s) {inum parent b c : ℕ} {leaf : Option Name}
    {p v : Inode} (found : translate path s ≡ done inum s)
    (above : translate_1 path s ≡ done (parent, leaf) s) (dir : IsDirectory s parent b p)
    (own : IsDirectory s inum c v) where
  -- A directory that lists an entry is not removed.
  pub rmdir_not_empty :
      is_empty_dir (entries_at s c) ≡ false
      → str_eq path slash ≡ false
      → fs_rmdir path s ≡ fail enotempty s
  unfolding fs_rmdir
  rmdir_not_empty full below = ground (
    arith,
    found,
    above,
    dir.typed,
    own.typed,
    inode_at_lem s parent dir.held,
    inode_at_lem s inum own.held,
    elem_at_lem v.direct 0 s own.first,
    read_lem s c h.ready own.inside,
  )
