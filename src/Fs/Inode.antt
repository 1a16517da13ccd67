-- ===== src/Fs/Inode.antt =====
-- Storing one inode in the array of pmeunier-project/fs.c.
use cs.Common.{ℕ, ◌<◌, ◌≡◌, arith, length, length-set, set}
use cs.Fs.Layout.{Inode}
use cs.Fs.Monad.{State, done, set_inode}
use cs.Fs.Sound.{IsSound}

-- The state with inode `inum` replaced.
abbrev pub stored : ℕ → Inode → State → State
stored inum v s = record s { inodes = set s.inodes inum v }

pub set_inode_lem :
    (inum : ℕ) (v : Inode) (s : State)
    → inum < length s.inodes
    → set_inode inum v s ≡ done tt (stored inum v s)
unfolding set_inode
set_inode_lem inum v s room = ground arith

pub stored-IsSound : (s : State) (inum : ℕ) (v : Inode) → IsSound s → IsSound (stored inum v s)
stored-IsSound s inum v h = record {
  ready = h.ready;
  block_bits = h.block_bits;
  block_room = h.block_room;
  inode_bits = h.inode_bits;
  inode_numbers = omega (arith, h.inode_numbers, length-set s.inodes inum v);
  inode_room = omega (arith, h.inode_room, length-set s.inodes inum v);
  map_base = h.map_base;
  blocks_base = h.blocks_base;
  region_base = h.region_base;
  region_room = omega (arith, h.region_room, length-set s.inodes inum v);
}
