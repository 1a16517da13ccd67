-- ===== src/Fs/Attr.antt =====
-- Mounting and attributes in pmeunier-project/fs.c: fs_init, cpy_stat, fs_getattr, fs_opendir,
-- fs_readdir, fs_chmod, fs_utime, fs_open, fs_release, fs_statfs.
pub mod Mount
pub mod Written
pub mod Store
use cs.Common.{
  ℕ, ◌+◌, ◌-◌, ◌*◌, ◌/◌, ◌%◌, ◌^◌, not, none, List, [], ◌∷◌, ◌++◌, replicate, bit_or, ltb, ◌==◌,
  if◌then◌else◌,
}
use cs.Device.{block_size}
use cs.Fs.Layout.{Inode, Dirent, decode_dir, decode_super, decode_inodes, filename_size}
use cs.Fs.Monad.{
  M, pure, crash, ◌>>=◌, ◌>>◌, gets, modify, fail_if, enotdir, eisdir, read_or_exit, inode_at,
  set_inode, elem_at,
}
use cs.Fs.Dir.{Name, cstr}
use cs.Fs.Alloc.{num_free_blk, update_inode}
use cs.Fs.Translate.{is_dir, translate}
use cs.Fs.Create.{s_ifreg, s_ifdir}

-- `malloc(sz * FS_BLOCK_SIZE)` filled with one block: `fresh n` is what `n` bytes of new memory hold.
abbrev pub map_buffer : (ℕ → List ℕ) → ℕ → List ℕ → M (List ℕ)
map_buffer fresh sz block = if sz == 0 then crash else pure (block ++ fresh ((sz - 1) * block_size))

-- The number of inode blocks is kept as the number of inodes.
unfoldable pub fs_init : (ℕ → List ℕ) → M (Unit {0})
fs_init fresh = do
  super ← read_or_exit 0 1
  let sb = decode_super super
  modify (λ s. record s { root_inode = sb.root_inode; inode_map_base = 1 })
  imap ← read_or_exit 1 1
  imap' ← map_buffer fresh sb.inode_map_sz imap
  modify (λ s. record s { inode_map = imap'; block_map_base = 2 })
  bmap ← read_or_exit 2 1
  bmap' ← map_buffer fresh sb.block_map_sz bmap
  modify (λ s. record s { block_map = bmap'; inode_base = 3; n_inodes = sb.inode_region_sz })
  region ← read_or_exit 3 sb.inode_region_sz
  modify (λ s. record s {
    inodes = decode_inodes sb.inode_region_sz region;
    n_blocks = sb.num_blocks;
    dirty = replicate (3 + sb.inode_region_sz) none;
  })

-- `struct stat`, as `cpy_stat` fills it; `st_size` and `st_blocks` are the 64 bits of a long.
pub record Stat : Type 0 where
  pub st_uid : ℕ
  pub st_gid : ℕ
  pub st_mode : ℕ
  pub st_atime : ℕ
  pub st_ctime : ℕ
  pub st_mtime : ℕ
  pub st_size : ℕ
  pub st_blksize : ℕ
  pub st_nlink : ℕ
  pub st_blocks : ℕ

-- An int, kept as its 32 bits, as the 64 bits of a long.
unfoldable pub int_to_long : ℕ → ℕ
int_to_long n = if ltb n (2 ^ 31) then n else n + 2 ^ 64 - 2 ^ 32

-- The quotient of two ints, as the 64 bits of a long; it is rounded towards 0.
unfoldable pub int_quotient : ℕ → ℕ → ℕ
int_quotient n d = if ltb n (2 ^ 31) then n / d else (2 ^ 64 - (2 ^ 32 - n) / d) % 2 ^ 64

-- The sum for `st_blocks` wraps around from a size of 2^31 - 1024 on, where C leaves it undefined.
unfoldable pub cpy_stat : Inode → Stat
cpy_stat v = record {
  st_uid = v.uid;
  st_gid = v.gid;
  st_mode = v.mode;
  st_atime = v.mtime;
  st_ctime = v.ctime;
  st_mtime = v.mtime;
  st_size = int_to_long v.size;
  st_blksize = block_size;
  st_nlink = 1;
  st_blocks = int_quotient ((v.size + block_size - 1) % 2 ^ 32) block_size;
}

-- Every call reads the metadata from the disk again.
unfoldable pub fs_getattr : (ℕ → List ℕ) → List ℕ → M Stat
fs_getattr fresh path = do
  fs_init fresh
  inum ← translate path
  v ← inode_at inum
  pure (cpy_stat v)

-- The result is `fi->fh`.
unfoldable pub fs_opendir : List ℕ → M ℕ
fs_opendir path = do
  inum ← translate path
  v ← inode_at inum
  fail_if (not (is_dir v.mode)) enotdir
  pure inum

-- The calls of `filler`, in order: the name and the attributes of every valid entry.
unfoldable pub fill_entries : List Dirent → M (List (Name × Stat))
fill_entries [] = pure []
fill_entries (d ∷ ds) =
    let rest = fill_entries ds in
    if d.valid
    then (do v ← inode_at d.inode; filled ← rest; pure ((cstr d.name, cpy_stat v) ∷ filled))
    else rest

unfoldable pub fs_readdir : List ℕ → M (List (Name × Stat))
fs_readdir path = do
  inum ← translate path
  v ← inode_at inum
  fail_if (not (is_dir v.mode)) enotdir
  b ← elem_at v.direct 0
  block ← read_or_exit b 1
  fill_entries (decode_dir block)

unfoldable pub fs_chmod : List ℕ → ℕ → M (Unit {0})
fs_chmod path mode = do
  inum ← translate path
  v ← inode_at inum
  set_inode inum (record v { mode = bit_or mode (if is_dir v.mode then s_ifdir else s_ifreg) })
  update_inode inum

-- `ut->modtime` is stored as a uint32_t.
unfoldable pub fs_utime : List ℕ → ℕ → M (Unit {0})
fs_utime path modtime = do
  inum ← translate path
  v ← inode_at inum
  set_inode inum (record v { mtime = modtime % 2 ^ 32 })
  update_inode inum

unfoldable pub fs_open : List ℕ → M ℕ
fs_open path = do
  inum ← translate path
  v ← inode_at inum
  fail_if (is_dir v.mode) eisdir
  pure inum

unfoldable pub fs_release : List ℕ → M ℕ
fs_release path = do
  inum ← translate path
  v ← inode_at inum
  fail_if (is_dir v.mode) eisdir
  pure (2 ^ 64 - 1)

-- `struct statvfs`; the fields that are not listed are zero. `f_blocks` is computed with ints and
-- converted to 64 bits.
pub record StatVfs : Type 0 where
  pub f_bsize : ℕ
  pub f_blocks : ℕ
  pub f_bfree : ℕ
  pub f_bavail : ℕ
  pub f_namemax : ℕ

unfoldable pub fs_statfs : M StatVfs
fs_statfs = do
  blocks ← gets (λ s. (2 ^ 64 + s.n_blocks - s.root_inode - s.inode_base) % 2 ^ 64)
  free ← gets num_free_blk
  pure (record {
    f_bsize = block_size;
    f_blocks = blocks;
    f_bfree = free;
    f_bavail = free;
    f_namemax = filename_size - 1;
  })
