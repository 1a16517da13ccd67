-- ===== src/Fs/Alloc.antt =====
-- The bitmaps of free blocks and inodes in pmeunier-project/fs.c: get_free_blk to update_inode,
-- num_free_blk and flush_metadata.
pub mod Laws
pub mod Update
use cs.Common.{
  ℕ, zero, suc, ◌+◌, ◌-◌, ◌*◌, ◌/◌, ◌%◌, Bool, true, false, not, Option, none, some, List, [], ◌∷◌,
  length, take, drop, replicate, Bitmap, fd_isset, fd_set, fd_clr, ltb, if◌then◌else◌,
}
use cs.Device.{block_size, image_write, success, e_unavail, aborted, overflowed}
use cs.Fs.Layout.{inodes_per_blk, encode_inodes}
use cs.Fs.Monad.{
  State, M, pure, throw, crash, ◌>>=◌, ◌>>◌, gets, modify, enospc, write_or_exit, done, fail, halt,
  asserted,
}

-- The first `i` in the next `n` numbers whose bit is clear.
unfoldable pub first_clear : ℕ → ℕ → Bitmap → Option ℕ
first_clear zero i m = none
first_clear (suc n) i m =
    let rest = first_clear n (i + 1) m in if fd_isset i m then rest else some i

unfoldable pub count_clear : ℕ → ℕ → Bitmap → ℕ
count_clear zero i m = 0
count_clear (suc n) i m = (if fd_isset i m then 0 else 1) + count_clear n (i + 1) m

unfoldable pub num_free_blk : State → ℕ
num_free_blk s = count_clear s.n_blocks 0 s.block_map

-- FD_SET and FD_CLR on the block map and the inode map.
unfoldable pub mark_block : ℕ → M (Unit {0})
mark_block b s =
    if ltb b (8 * length s.block_map)
    then done tt (record s { block_map = fd_set b s.block_map })
    else crash s

unfoldable pub mark_inode : ℕ → M (Unit {0})
mark_inode i s =
    if ltb i (8 * length s.inode_map)
    then done tt (record s { inode_map = fd_set i s.inode_map })
    else crash s

-- The end of the scan for a block: the new block is zeroed on the disk before it is marked.
abbrev take_block : Option ℕ → M ℕ
take_block none = throw enospc
take_block (some i) = do write_or_exit i 1 (replicate block_size 0); mark_block i; pure i

unfoldable pub get_free_blk : M ℕ
get_free_blk s = take_block (first_clear s.n_blocks 0 s.block_map) s

unfoldable pub return_blk : ℕ → M (Unit {0})
return_blk b s =
    if ltb b (8 * length s.block_map)
    then done tt (record s { block_map = fd_clr b s.block_map })
    else crash s

unfoldable pub update_blk : M (Unit {0})
update_blk s = write_or_exit s.block_map_base (s.inode_base - s.block_map_base) s.block_map s

abbrev take_inode : Option ℕ → M ℕ
take_inode none = throw enospc
take_inode (some i) = do mark_inode i; pure i

-- The scan starts at inode 2.
unfoldable pub get_free_inode : M ℕ
get_free_inode s = take_inode (first_clear (s.n_inodes - 2) 2 s.inode_map) s

unfoldable pub return_inode : ℕ → M (Unit {0})
return_inode i s =
    if ltb i (8 * length s.inode_map)
    then done tt (record s { inode_map = fd_clr i s.inode_map })
    else crash s

-- The block of the region that holds inode `inum`, and then the inode map.
unfoldable pub update_inode : ℕ → M (Unit {0})
update_inode inum s =
    if ltb inum (length s.inodes)
    then (do
      write_or_exit (s.inode_base + inum / inodes_per_blk) 1
          (encode_inodes (take inodes_per_blk (drop (inum - inum % inodes_per_blk) s.inodes)))
      write_or_exit s.inode_map_base (s.block_map_base - s.inode_map_base) s.inode_map)
        s
    else crash s

-- The loop over `dirty`: block `i`'s pending bytes are written, whatever the write returns, and
-- the pointer is cleared. A failed `assert` of the device still ends the process.
unfoldable pub flush_from : ℕ → List (Option (List ℕ)) → M (List (Option (List ℕ)))
flush_from i [] s = done [] s
flush_from i (none ∷ ds) s = (flush_from (i + 1) ds >>= λ rest. pure (none ∷ rest)) s
flush_from i (some buf ∷ ds) s = elim (image_write s.disk i 1 buf) [
  | success disk ↦ (flush_from (i + 1) ds >>= λ rest. pure (none ∷ rest)) (record s { disk = disk })
  | e_unavail ↦ (flush_from (i + 1) ds >>= λ rest. pure (none ∷ rest)) s
  | aborted ↦ halt asserted s
  | overflowed ↦ crash s
]

unfoldable pub flush_metadata : M (Unit {0})
unfolding flush_from
flush_metadata = do
  pending ← gets (λ s. s.dirty)
  cleared ← flush_from 0 pending
  modify (λ s. record s { dirty = cleared })
