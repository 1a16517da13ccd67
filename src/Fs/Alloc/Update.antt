-- ===== src/Fs/Alloc/Update.antt =====
-- Writing the metadata back in pmeunier-project/fs.c: update_inode and update_blk touch the blocks of
-- the maps and of the inode region, and no block of data.
use cs.Common.{
  ℕ, ◌+◌, ◌-◌, ◌*◌, ◌/◌, ◌%◌, ◌≤◌, ◌<◌, ◌≡◌, refl, ◌≢◌, ◌∙◌, List, arith, length, take, drop,
  lt→ltb,
}
use cs.Device.{Device}
use cs.Device.Laws.{IsReady, written, overwrite_ne}
use cs.Fs.Layout.{encode_inodes, inodes_per_blk}
use cs.Fs.Monad.{State, done, write_or_exit}
use cs.Fs.Monad.Laws.{bind_done}
use cs.Fs.Sound.{IsSound}
use cs.Fs.Alloc.{update_inode, update_blk}
use cs.Fs.Alloc.Laws.{write_lem}

-- A block behind the inode region.
abbrev pub IsData : State → ℕ → Type 0
IsData s b = s.inode_base * inodes_per_blk + length s.inodes ≤ b * inodes_per_blk

-- `disk` answers as the device of `s` does, and holds the same data blocks.
pub record Spares (s : State) (disk : Device) : Type 0 where
  pub ready : IsReady disk
  pub nblks : disk.nblks ≡ s.disk.nblks
  pub same : (b : ℕ) → IsData s b → disk.content b ≡ s.disk.content b

-- A write of one metadata block.
write_meta :
    (s : State) (base : Device) (a n : ℕ) (buf : List ℕ)
    → Spares s base
    → n ≡ 1
    → a < s.disk.nblks
    → ((b : ℕ) → IsData s b → a ≢ b)
    → (disk : Device) × (write_or_exit a n buf (record s { disk = base })
        ≡ done tt (record s { disk = disk }))
      × Spares s disk
write_meta s base a n buf sp one room meta = (
  written base a buf,
  rw one (write_lem (record s { disk = base }) a buf sp.ready (omega (arith, sp.nblks))),
  record {
    ready = record {
      available = sp.ready.available;
      complete = sp.ready.complete;
      small = sp.ready.small;
    };
    nblks = sp.nblks;
    same = λ b data_block.
        overwrite_ne base.content a b buf (meta b data_block) ∙ sp.same b data_block;
  },
)

Spares-self : (s : State) → IsSound s → Spares s s.disk
Spares-self s v = record { ready = v.ready; nblks = refl; same = λ b d. refl }

-- `update_blk` writes the block map.
pub update_blk_lem :
    (s : State) (base : Device)
    → IsSound s
    → Spares s base
    → (disk : Device) × (update_blk (record s { disk = base }) ≡ done tt (record s { disk = disk }))
      × Spares s disk
unfolding update_blk
update_blk_lem s base v sp =
    write_meta s base s.block_map_base (s.inode_base - s.block_map_base) s.block_map sp
      (omega (arith, v.blocks_base, v.region_base))
      (omega (arith, v.blocks_base, v.region_base, v.region_room))
      (λ b d. omega (arith, v.blocks_base, v.region_base))

-- `update_inode` writes the inode's block and the inode map.
pub update_inode_lem :
    (s : State) (inum : ℕ)
    → IsSound s
    → inum < length s.inodes
    → (disk : Device) × (update_inode inum s ≡ done tt (record s { disk = disk })) × Spares s disk
unfolding update_inode
update_inode_lem s inum v room =
    let buf = encode_inodes (take inodes_per_blk (drop (inum - inum % inodes_per_blk) s.inodes)) in
    let (d1, w1, sp1) =
      write_meta s s.disk (s.inode_base + inum / inodes_per_blk) 1 buf (Spares-self s v) refl
        (omega (arith, v.region_room)) (λ b d. omega arith) in
    let (d2, w2, sp2) =
      write_meta s d1 s.inode_map_base (s.block_map_base - s.inode_map_base) s.inode_map sp1
        (omega (arith, v.blocks_base, v.map_base))
        (omega (arith, v.map_base, v.region_base, v.region_room))
        (λ b d. omega (arith, v.map_base, v.region_base)) in
    (
      d2,
      rw (lt→ltb _ _ room) (
          bind_done (write_or_exit (s.inode_base + inum / inodes_per_blk) 1 buf)
            (λ _. write_or_exit s.inode_map_base (s.block_map_base - s.inode_map_base) s.inode_map)
            w1
          ∙ w2),
      sp2,
    )
