-- ===== src/Fs/Sound.antt =====
-- The states of pmeunier-project/fs.c in which the file system works: the device answers, the
-- bitmaps cover what they describe, and the metadata blocks lie inside the device.
use cs.Common.{◌+◌, ◌*◌, ◌^◌, ◌≤◌, ◌≡◌, length}
use cs.Device.Laws.{IsReady}
use cs.Fs.Layout.{inodes_per_blk}
use cs.Fs.Monad.{State}

pub record IsSound (s : State) : Type 0 where
  pub ready : IsReady s.disk
  pub block_bits : s.n_blocks ≤ 8 * length s.block_map
  pub block_room : s.n_blocks ≤ s.disk.nblks
  pub inode_bits : s.n_inodes ≤ 8 * length s.inode_map
  pub inode_numbers : length s.inodes ≤ 2 ^ 30
  pub inode_room : s.n_inodes ≤ length s.inodes
  pub map_base : s.inode_map_base ≡ 1
  pub blocks_base : s.block_map_base ≡ 2
  pub region_base : s.inode_base ≡ 3
  pub region_room : s.inode_base * inodes_per_blk + length s.inodes ≤ s.disk.nblks * inodes_per_blk
