-- ===== src/Fs/Attr/Written.antt =====
-- The device after update_inode of pmeunier-project/fs.c, block by block.
use cs.Common.{
  ℕ, dec_lt, ◌==◌, if◌then◌else◌, true, zero, suc, ◌+◌, ◌-◌, ◌*◌, ◌/◌, ◌%◌, ◌<◌, ◌≡◌, ◌≢◌, ap, ◌∙◌,
  List, [], ◌∷◌, length, take, drop, set, arith, length-take, length-drop, slice-set_before,
  drop-set_behind, lt→ltb,
}
use cs.Device.{Device, block_size}
use cs.Device.Laws.{IsReady, written, overwrite_ne, overwrite_block}
use cs.Fs.Layout.{Inode, encode_inodes, inodes_per_blk}
use cs.Fs.Layout.Codec.{All-drop, All}
use cs.Fs.Layout.RoundTrip.{InodeFits, decode-encode_inodes}
use cs.Fs.Monad.{State, M, done, write_or_exit, ◌>>◌}
use cs.Fs.Monad.Laws.{bind_done}
use cs.Fs.Alloc.{update_inode}
use cs.Fs.Alloc.Laws.{write_lem}
use cs.Fs.Attr.Mount.{region_block}

module _ {A : Type 0} (P : A → Type 0) where
  All-take : (n : ℕ) (xs : List A) → All P xs → All P (take n xs)
  unfolding take
  All-take zero xs h = tt
  All-take (suc n) [] h = tt
  All-take (suc n) (x ∷ xs) h = (h.0, All-take n xs h.1)

  pub All-set : (xs : List A) (i : ℕ) (v : A) → All P xs → P v → All P (set xs i v)
  All-set [] i v h p = tt
  All-set (x ∷ xs) zero v h p = (p, h.1)
  All-set (x ∷ xs) (suc i) v h p = (h.0, All-set xs i v h.1 p)

-- The device after update_inode.
unfoldable pub updated : State → ℕ → Device
updated s inum =
    written
      (written s.disk (3 + inum / inodes_per_blk) (region_block s.inodes (inum / inodes_per_blk))) 1
      s.inode_map

-- The bytes of one block of the region.
pub length-region_block :
    (inodes : List Inode) (i n : ℕ)
    → All InodeFits inodes
    → length inodes ≡ n * inodes_per_blk
    → i < n
    → length (region_block inodes i) ≡ block_size
unfolding region_block
length-region_block inodes i n fits count less =
    let part = take inodes_per_blk (drop (i * inodes_per_blk) inodes) in
    (decode-encode_inodes 1 part
      (All-take InodeFits inodes_per_blk _ (All-drop InodeFits (i * inodes_per_blk) inodes fits))
      (omega (
        arith,
        length-take inodes_per_blk (drop (i * inodes_per_blk) inodes),
        length-drop (i * inodes_per_blk) inodes,
      ))).1

==_same : (b : ℕ) → (b == b) ≡ true
==_same b = ground arith

-- The two writes of update_inode.
both_writes : State → ℕ → ℕ → ℕ → ℕ → M (Unit {0})
both_writes s a k c n = do
  write_or_exit a 1 (encode_inodes (take inodes_per_blk (drop k s.inodes)))
  write_or_exit c n s.inode_map

-- update_inode with the maps where fs_init puts them.
pub update_inode_synced :
    (s : State) (inum : ℕ)
    → IsReady s.disk
    → (s.inode_map_base ≡ 1) × (s.block_map_base ≡ 2) × (s.inode_base ≡ 3)
    → inum < length s.inodes
    → 3 + inum / inodes_per_blk < s.disk.nblks
    → update_inode inum s ≡ done tt (record s { disk = updated s inum })
unfolding update_inode updated region_block both_writes
update_inode_synced s inum ready bases room inside =
    let at_block : s.inode_base + inum / inodes_per_blk ≡ 3 + inum / inodes_per_blk =
      omega (arith, bases.2) in
    let aligned : inum - inum % inodes_per_blk ≡ inum / inodes_per_blk * inodes_per_blk =
      omega arith in
    let one : s.block_map_base - s.inode_map_base ≡ 1 = omega (arith, bases.0, bases.1) in
    let buf = region_block s.inodes (inum / inodes_per_blk) in
    rw (lt→ltb _ _ room) (
      ap
        (λ a.
          both_writes s a (inum - inum % inodes_per_blk) s.inode_map_base
            (s.block_map_base - s.inode_map_base) s)
        at_block)
    ∙ ap
        (λ k.
          both_writes s (3 + inum / inodes_per_blk) k s.inode_map_base
            (s.block_map_base - s.inode_map_base) s)
        aligned
    ∙ ap
        (λ c.
          both_writes s (3 + inum / inodes_per_blk) (inum / inodes_per_blk * inodes_per_blk) c
            (s.block_map_base - s.inode_map_base) s)
        bases.0
    ∙ ap
        (λ n.
          both_writes s (3 + inum / inodes_per_blk) (inum / inodes_per_blk * inodes_per_blk) 1 n s)
        one
    ∙ bind_done (write_or_exit (3 + inum / inodes_per_blk) 1 buf) _
        (write_lem s (3 + inum / inodes_per_blk) buf ready inside)
    ∙ write_lem (record s { disk = written s.disk (3 + inum / inodes_per_blk) buf }) 1 s.inode_map
        (record { available = ready.available; complete = ready.complete; small = ready.small })
        (omega arith)

-- The blocks after update_inode: those written, and the others as before.
module _ (s : State) (inum : ℕ) where
  pub updated_ne :
      (b : ℕ)
      → 1 ≢ b
      → 3 + inum / inodes_per_blk ≢ b
      → (updated s inum).content b ≡ s.disk.content b
  unfolding updated
  updated_ne b other apart =
      let first =
        written s.disk (3 + inum / inodes_per_blk)
          (region_block s.inodes (inum / inodes_per_blk)) in
      overwrite_ne first.content 1 b s.inode_map other
      ∙ overwrite_ne s.disk.content (3 + inum / inodes_per_blk) b _ apart

  pub updated_map : length s.inode_map ≡ block_size → (updated s inum).content 1 ≡ s.inode_map
  unfolding updated
  updated_map sized =
      overwrite_block
        (written s.disk (3 + inum / inodes_per_blk)
          (region_block s.inodes (inum / inodes_per_blk))).content
        1 1 s.inode_map sized

  pub updated_region :
      length (region_block s.inodes (inum / inodes_per_blk)) ≡ block_size
      → (updated s inum).content (3 + inum / inodes_per_blk)
        ≡ region_block s.inodes (inum / inodes_per_blk)
  unfolding updated
  updated_region sized =
      let b = 3 + inum / inodes_per_blk in
      let buf = region_block s.inodes (inum / inodes_per_blk) in
      overwrite_ne (written s.disk b buf).content 1 b s.inode_map (omega arith)
      ∙ overwrite_block s.disk.content b b buf sized
      ∙ ap (λ t. if t then buf else s.disk.content b) (==_same b)

-- A block of the region that does not hold the inode replaced.
pub region_block-set :
    (inodes : List Inode) (inum i : ℕ) (v : Inode)
    → inum / inodes_per_blk ≢ i
    → region_block (set inodes inum v) i ≡ region_block inodes i
unfolding region_block
region_block-set inodes inum i v other = elim (dec_lt inum (i * inodes_per_blk)) [
  | yes behind ↦
      ap (λ r. encode_inodes (take inodes_per_blk r))
        (drop-set_behind (i * inodes_per_blk) inum inodes v behind)
  | no before ↦
      ap encode_inodes
        (slice-set_before inodes_per_blk (i * inodes_per_blk) inum inodes v (omega arith))
]
