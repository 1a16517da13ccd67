-- ===== src/Fs/Rename.antt =====
-- fs_rename of pmeunier-project/fs.c: a new name in the same directory.
pub mod Laws
use cs.Common.{ℕ, Bool, not, Option, none, some, List, ◌⊎◌, inl, inr, ◌==◌, if◌then◌else◌}
use cs.Fs.Layout.{encode_dir, decode_dir}
use cs.Fs.Monad.{
  State, M, pure, throw, ◌>>=◌, ◌>>◌, attempt, fail_if, Errno, enotdir, eexist, einval,
  read_or_exit, write_or_exit, inode_at, elem_at,
}
use cs.Fs.Dir.{Name, rename_named}
use cs.Fs.Translate.{is_dir, translate, translate_1}
use cs.Fs.Create.{fail_if_found, or_return, set_leaf}

-- Two equal error numbers are returned, two different ones are two different parents.
errno_code : Errno → ℕ
errno_code Errno.eperm = 1
errno_code Errno.enoent = 2
errno_code Errno.eexist = 17
errno_code Errno.enotdir = 20
errno_code Errno.eisdir = 21
errno_code Errno.einval = 22
errno_code Errno.enospc = 28
errno_code Errno.enotempty = 39

-- `if (src_parent_inode_idx != dst_parent_inode_idx) return -EINVAL;` and then
-- `if (parent_inode_idx < 0) return parent_inode_idx;`, on two inode numbers or error numbers.
unfoldable pub same_parent :
    (ℕ × Option Name) ⊎ Errno → (ℕ × Option Name) ⊎ Errno → M (ℕ × Option Name × Option Name)
unfolding errno_code
same_parent (inl (a, old)) (inl (b, new)) = if a == b then pure (a, old, new) else throw einval
same_parent (inl a) (inr e) = throw einval
same_parent (inr e) (inl b) = throw einval
same_parent (inr e) (inr f) = if errno_code e == errno_code f then throw e else throw einval

unfoldable pub fs_rename : List ℕ → List ℕ → M (Unit {0})
fs_rename src_path dst_path = do
  src ← attempt (translate src_path)
  dst ← attempt (translate dst_path)
  found ← or_return src
  fail_if_found dst eexist
  src_above ← attempt (translate_1 src_path)
  dst_above ← attempt (translate_1 dst_path)
  (parent, old, new) ← same_parent src_above dst_above
  p ← inode_at parent
  fail_if (not (is_dir p.mode)) enotdir
  b ← elem_at p.direct 0
  block ← read_or_exit b 1
  old_name ← set_leaf old
  new_name ← set_leaf new
  write_or_exit b 1 (encode_dir (rename_named old_name new_name (decode_dir block)))
