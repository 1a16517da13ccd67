-- ===== src/Fs/Remove.antt =====
-- Truncating and removing in pmeunier-project/fs.c: fs_truncate with its helpers, fs_unlink,
-- fs_rmdir, and the fs_releasedir that fs_rmdir calls.
pub mod Laws
pub mod Freed
pub mod Truncated
use cs.Common.{
  ℕ, ◌^◌, ◌-◌, Bool, true, false, not, ◌||◌, Option, none, some, List, [], ◌∷◌, ◌⊎◌, inl, inr, map,
  ◌==◌, if◌then◌else◌,
}
use cs.Fs.Layout.{Inode, blank_inode, encode_dir, decode_dir, decode_ptrs}
use cs.Fs.Monad.{
  State, M, pure, throw, crash, ◌>>=◌, ◌>>◌, attempt, fail_if, Errno, enoent, enotdir, eisdir,
  einval, enotempty, read_or_exit, write_or_exit, inode_at, set_inode, elem_at,
}
use cs.Fs.Dir.{Name, str_eq, is_empty_dir, wipe_named, wipe_valid}
use cs.Fs.Alloc.{return_blk, return_inode, update_inode, update_blk}
use cs.Fs.Translate.{is_dir, slash, translate, translate_1}
use cs.Fs.Create.{set_leaf}

-- `if (entries[i]) return_blk(entries[i]);`
unfoldable pub return_entry : ℕ → M (Unit {0})
return_entry b = if b == 0 then pure tt else return_blk b

-- The loop over the entries; `entries[i] = 0` is written where the array is a caller's.
unfoldable pub return_all : List ℕ → M (Unit {0})
return_all [] = pure tt
return_all (b ∷ bs) = return_entry b >> return_all bs

-- The zeroed direct pointers.
unfoldable pub fs_truncate_dir : List ℕ → M (List ℕ)
fs_truncate_dir de = return_all de >> pure (map (λ _. 0) de)

unfoldable pub fs_truncate_indir1 : ℕ → M (Unit {0})
fs_truncate_indir1 blk_num = do block ← read_or_exit blk_num 1; return_all (decode_ptrs block)

unfoldable pub truncate_entry : ℕ → M (Unit {0})
truncate_entry b = if b == 0 then pure tt else fs_truncate_indir1 b

unfoldable pub truncate_each : List ℕ → M (Unit {0})
truncate_each [] = pure tt
truncate_each (b ∷ bs) = truncate_entry b >> truncate_each bs

unfoldable pub fs_truncate_indir2 : ℕ → M (Unit {0})
fs_truncate_indir2 blk_num = do block ← read_or_exit blk_num 1; truncate_each (decode_ptrs block)

-- `if (ptr) { helper(ptr); return_blk(ptr); }`
unfoldable pub release_with : (ℕ → M (Unit {0})) → ℕ → M (Unit {0})
release_with helper ptr = if ptr == 0 then pure tt else (helper ptr >> return_blk ptr)

-- The body of `fs_truncate` once the inode is found to be a file.
unfoldable pub truncate_inode : ℕ → Inode → M (Unit {0})
truncate_inode inum v = do
  zeros ← fs_truncate_dir v.direct
  release_with fs_truncate_indir1 v.indir_1
  release_with fs_truncate_indir2 v.indir_2
  set_inode inum (record v { direct = zeros; indir_1 = 0; indir_2 = 0; size = 0 })
  update_inode inum
  update_blk

unfoldable pub fs_truncate : List ℕ → ℕ → M (Unit {0})
fs_truncate path len = do
  fail_if (not (len == 0)) einval
  inum ← translate path
  v ← inode_at inum
  fail_if (is_dir v.mode) eisdir
  truncate_inode inum v

-- `if (inode_idx < 0 || parent_inode_idx < 0) return -ENOENT;`
abbrev both_found : ℕ ⊎ Errno → (ℕ × Option Name) ⊎ Errno → M (ℕ × ℕ × Option Name)
both_found (inl inum) (inl (parent, leaf)) = pure (inum, parent, leaf)
both_found (inr e) above = throw enoent
both_found (inl inum) (inr e) = throw enoent

-- The end of `fs_unlink` and `fs_rmdir`: the inode is cleared and returned, both maps are written.
unfoldable pub drop_inode : ℕ → M (Unit {0})
drop_inode inum = do set_inode inum blank_inode; return_inode inum; update_inode inum; update_blk

unfoldable pub fs_unlink : List ℕ → M (Unit {0})
fs_unlink path = do
  fs_truncate path 0
  here ← attempt (translate path)
  above ← attempt (translate_1 path)
  (inum, parent, leaf) ← both_found here above
  v ← inode_at inum
  p ← inode_at parent
  fail_if (is_dir v.mode) eisdir
  fail_if (not (is_dir p.mode)) enotdir
  b ← elem_at p.direct 0
  block ← read_or_exit b 1
  name ← set_leaf leaf
  write_or_exit b 1 (encode_dir (wipe_named name (decode_dir block)))
  drop_inode inum

-- It sets `fi->fh` to (uint64_t)-1 and returns that handle; `fi` is a pointer, and may be NULL.
unfoldable pub fs_releasedir : List ℕ → Option ℕ → M ℕ
fs_releasedir path fi = do
  inum ← translate path
  v ← inode_at inum
  fail_if (not (is_dir v.mode)) enotdir
  elim fi [ none ↦ crash | some _ ↦ pure (2 ^ 64 - 1) ]

-- The entries read are those of the directory itself, and they are written to its parent's block.
-- The inode's fields are read through a pointer, so after the write as they are then.
unfoldable pub fs_rmdir : List ℕ → M (Unit {0})
fs_rmdir path = do
  fail_if (str_eq path slash) einval
  here ← attempt (translate path)
  above ← attempt (translate_1 path)
  (inum, parent, leaf) ← both_found here above
  p ← inode_at parent
  v ← inode_at inum
  fail_if (not (is_dir p.mode) || not (is_dir v.mode)) enotdir
  b ← elem_at v.direct 0
  block ← read_or_exit b 1
  fail_if (not (is_empty_dir (decode_dir block))) enotempty
  pb ← elem_at p.direct 0
  write_or_exit pb 1 (encode_dir (wipe_valid (decode_dir block)))
  released ← attempt (fs_releasedir path none)
  return_blk b
  drop_inode inum
