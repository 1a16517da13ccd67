-- ===== src/Fs/Create.antt =====
-- Creating files and directories in pmeunier-project/fs.c: set_attributes_and_update, fs_mknod and
-- fs_mkdir.
pub mod Laws
pub mod Attributes
use cs.Common.{
  ℕ, ◌+◌, ◌%◌, ◌^◌, Bool, true, false, not, ◌||◌, Option, none, some, List, [], ◌∷◌, ◌⊎◌, inl, inr,
  set, bit_or, if◌then◌else◌,
}
use cs.Fs.Layout.{Dirent, Inode, encode_dir, decode_dir}
use cs.Fs.Monad.{
  State, M, pure, throw, crash, ◌>>=◌, ◌>>◌, attempt, fail_if, Errno, enotdir, eexist, einval,
  enospc, read_or_exit, write_or_exit, inode_at, set_inode, elem_at,
}
use cs.Fs.Dir.{Name, str_eq, find_free_dir, add_entry}
use cs.Fs.Alloc.{get_free_inode, get_free_blk, update_inode, update_blk}
use cs.Fs.Translate.{is_dir, is_reg, slash, translate, translate_1}

-- What `getuid()`, `getgid()` and `time(NULL)` return.
pub record Caller : Type 0 where
  pub uid : ℕ
  pub gid : ℕ
  pub now : ℕ

-- `isDir ? get_free_blk() : 0`, its sign tested later.
abbrev new_block : Bool → M (ℕ ⊎ Errno)
new_block is_directory = if is_directory then attempt get_free_blk else pure (inl 0)

-- The three results are tested together, so an error leaves what was taken marked in the maps.
abbrev all_found : Option ℕ → ℕ ⊎ Errno → ℕ ⊎ Errno → M (ℕ × ℕ × ℕ)
all_found (some freed) (inl freei) (inl freeb) = pure (freed, freei, freeb)
all_found none freei freeb = throw enospc
all_found (some freed) (inr e) freeb = throw enospc
all_found (some freed) (inl freei) (inr e) = throw enospc

-- The inode's fields that a new file gets; the others stay as they are.
unfoldable pub fresh_inode : Caller → ℕ → ℕ → Inode → Inode
fresh_inode who mode freeb v = record v {
  uid = who.uid % 2 ^ 16;
  gid = who.gid % 2 ^ 16;
  mode = mode;
  ctime = who.now % 2 ^ 32;
  mtime = who.now % 2 ^ 32;
  size = 0;
  direct = set v.direct 0 freeb;
}

-- It returns the entries, which the caller's array holds.
unfoldable pub set_attributes_and_update : Caller → List Dirent → Name → ℕ → Bool → M (List Dirent)
set_attributes_and_update who de name mode is_directory = do
  found_inode ← attempt get_free_inode
  found_block ← new_block is_directory
  (freed, freei, freeb) ← all_found (find_free_dir de) found_inode found_block
  v ← inode_at freei
  set_inode freei (fresh_inode who mode freeb v)
  update_inode freei
  update_blk
  pure (add_entry freed name (freei % 2 ^ 30) de)

-- Tests on the ints that `translate` and `translate_1` returned.
abbrev pub fail_if_found : ℕ ⊎ Errno → Errno → M (Unit {0})
fail_if_found (inl _) e = throw e
fail_if_found (inr _) e = pure tt

abbrev pub or_return : {A : Type 0} → A ⊎ Errno → M A
or_return (inl a) = pure a
or_return (inr e) = throw e

-- A read of the leaf's array.
abbrev pub set_leaf : Option Name → M Name
set_leaf none = crash
set_leaf (some leaf) = pure leaf

-- `fs_mknod` and `fs_mkdir` from the second statement on; both hand `false` to
-- `set_attributes_and_update`.
create : Caller → List ℕ → ℕ → M (Unit {0})
create who path mode = do
  here ← attempt (translate path)
  above ← attempt (translate_1 path)
  fail_if_found here eexist
  (parent, name) ← or_return above
  p ← inode_at parent
  fail_if (not (is_dir p.mode)) enotdir
  b ← elem_at p.direct 0
  block ← read_or_exit b 1
  leaf ← set_leaf name
  entries ← set_attributes_and_update who (decode_dir block) leaf mode false
  p' ← inode_at parent
  b' ← elem_at p'.direct 0
  write_or_exit b' 1 (encode_dir entries)

-- `S_IFREG` and `S_IFDIR`.
abbrev pub s_ifreg : ℕ
s_ifreg = 0o100000

abbrev pub s_ifdir : ℕ
s_ifdir = 0o040000

unfoldable pub fs_mknod : Caller → List ℕ → ℕ → M (Unit {0})
unfolding create
fs_mknod who path mode = do
  let mode' = bit_or mode s_ifreg
  fail_if (not (is_reg mode') || str_eq path slash) einval
  create who path mode'

unfoldable pub fs_mkdir : Caller → List ℕ → ℕ → M (Unit {0})
unfolding create
fs_mkdir who path mode = do
  let mode' = bit_or mode s_ifdir
  fail_if (not (is_dir mode') || str_eq path slash) einval
  create who path mode'
