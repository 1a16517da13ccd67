-- ===== src/Fs/Alloc/Laws.antt =====
-- The free-block and free-inode maps of pmeunier-project/fs.c: what is found, what is marked.
use cs.Common.{
  ℕ, zero, suc, ◌+◌, ◌-◌, ◌*◌, ◌≤◌, ◌<◌, ◌≡◌, refl, true, false, none, some, List, ◌⊎◌, inl, inr,
  arith, length, replicate, Bitmap, fd_isset, fd_set, fd_clr, fd_isset-fd_set, fd_isset-fd_clr,
  Bool-cases, ℕ_discrete, dec_lt, ap, ◌∙◌, length-fd_set,
}
use cs.Device.{block_size}
use cs.Device.Laws.{IsReady, written, write_block}
use cs.Fs.Monad.{State, Outcome, Errno, done, fail, pure, ◌>>=◌, ◌>>◌, enospc, write_or_exit}
use cs.Fs.Monad.Laws.{bind_done}
use cs.Fs.Sound.{IsSound}
use cs.Fs.Alloc.{
  take_block, take_inode, first_clear, count_clear, num_free_blk, mark_block, mark_inode,
  get_free_blk, return_blk, get_free_inode,
}

-- Every bit from `lo` up to `hi` is set.
abbrev pub AllSet : ℕ → ℕ → Bitmap → Type 0
AllSet lo hi m = (j : ℕ) → lo ≤ j → j < hi → fd_isset j m ≡ true

-- `k` is the first clear bit from `lo` on, and below `hi`.
pub record IsFirst (lo hi : ℕ) (m : Bitmap) (k : ℕ) : Type 0 where
  pub above : lo ≤ k
  pub below : k < hi
  pub clear : fd_isset k m ≡ false
  pub before : AllSet lo k m

extend : (lo hi : ℕ) (m : Bitmap) → fd_isset lo m ≡ true → AllSet (lo + 1) hi m → AllSet lo hi m
extend lo hi m first all j above below = elim (ℕ_discrete lo j) [
  | yes e ↦ rw (← e) first
  | no ne ↦ all j (omega arith) below
]

-- The scan finds the first clear bit, or every bit is set.
pub first_clear_lem :
    (n lo hi : ℕ) (m : Bitmap)
    → lo + n ≡ hi
    → ((first_clear n lo m ≡ none) × AllSet lo hi m)
      ⊎ ((k : ℕ) × (first_clear n lo m ≡ some k) × IsFirst lo hi m k)
unfolding first_clear
first_clear_lem zero lo hi m e = inl (refl, λ j above below. absurd (omega arith))
first_clear_lem (suc n) lo hi m e = elim (Bool-cases (fd_isset lo m)) [
  | inl taken ↦ rw taken (elim (first_clear_lem n (lo + 1) hi m (omega arith)) [
    | inl (none_left, all) ↦ inl (none_left, extend lo hi m taken all)
    | inr (k, found, f) ↦ inr (
      k,
      found,
      record {
        above = omega (arith, f.above);
        below = f.below;
        clear = f.clear;
        before = extend lo k m taken f.before;
      },
    )
  ])
  | inr open_bit ↦ rw open_bit (
      inr (
        lo,
        refl,
        record {
          above = omega arith;
          below = omega arith;
          clear = open_bit;
          before = λ j above below. absurd (omega arith);
        },
      ))
]

-- Setting a bit outside a range leaves the number of clear bits in it.
count_outside :
    (n lo k : ℕ) (m : Bitmap)
    → k < 8 * length m
    → k < lo
    → count_clear n lo (fd_set k m) ≡ count_clear n lo m
unfolding count_clear
count_outside zero lo k m room h = refl
count_outside (suc n) lo k m room h =
    ground (arith, fd_isset-fd_set k lo m room, count_outside n (lo + 1) k m room)

-- Setting a clear bit of a range lowers it by one.
count_inside :
    (n lo k : ℕ) (m : Bitmap)
    → k < 8 * length m
    → lo ≤ k
    → k < lo + n
    → fd_isset k m ≡ false
    → count_clear n lo m ≡ suc (count_clear n lo (fd_set k m))
unfolding count_clear
count_inside zero lo k m room above below clear = absurd (omega arith)
count_inside (suc n) lo k m room above below clear = elim (ℕ_discrete lo k) [
  | yes e ↦ ground (
    arith,
    fd_isset-fd_set k lo m room,
    count_outside n (lo + 1) k m room,
    ap (λ t. fd_isset t m) e,
  )
  | no ne ↦ ground (arith, fd_isset-fd_set k lo m room, count_inside n (lo + 1) k m room)
]

-- The state once block `k` has been zeroed on the disk and marked.
abbrev pub taken_block : ℕ → State → State
taken_block k s = record s {
  disk = written s.disk k (replicate block_size 0);
  block_map = fd_set k s.block_map;
}

pub write_lem :
    (s : State) (b : ℕ) (buf : List ℕ)
    → IsReady s.disk
    → b < s.disk.nblks
    → write_or_exit b 1 buf s ≡ done tt (record s { disk = written s.disk b buf })
unfolding write_or_exit
write_lem s b buf ready room = ground (arith, write_block b buf ready room)

mark_block_lem :
    (s : State) (b : ℕ)
    → b < 8 * length s.block_map
    → mark_block b s ≡ done tt (record s { block_map = fd_set b s.block_map })
unfolding mark_block
mark_block_lem s b room = ground arith

fail-ne-done : {o : Outcome ℕ} {e : Errno} {k : ℕ} {s t : State} → o ≡ fail e s → o ≡ done k t → ⊥
fail-ne-done p q = cc

take_block_lem :
    (s : State) (k : ℕ)
    → IsReady s.disk
    → k < s.disk.nblks
    → k < 8 * length s.block_map
    → take_block (some k) s ≡ done k (taken_block k s)
take_block_lem s k ready room bits =
    bind_done (write_or_exit k 1 (replicate block_size 0)) (λ _. mark_block k >> pure k)
      (write_lem s k (replicate block_size 0) ready room)
    ∙ bind_done (mark_block k) (λ _. pure k)
        (mark_block_lem (record s { disk = written s.disk k (replicate block_size 0) }) k bits)

-- In a sound state `get_free_blk` returns the first free block, zeroed on the disk and marked, and
-- the number of free blocks falls by one; or it fails with ENOSPC and changes nothing, and then no
-- block is free.
pub get_free_blk_lem :
    (s : State)
    → IsSound s
    → ((get_free_blk s ≡ fail enospc s) × AllSet 0 s.n_blocks s.block_map)
      ⊎ ((k : ℕ) × (get_free_blk s ≡ done k (taken_block k s))
          × IsFirst 0 s.n_blocks s.block_map k
          × (num_free_blk s ≡ suc (num_free_blk (taken_block k s))))
unfolding get_free_blk num_free_blk
get_free_blk_lem s v = elim (first_clear_lem s.n_blocks 0 s.n_blocks s.block_map (omega arith)) [
  | inl (e, all) ↦ inl (rw e refl, all)
  | inr (k, e, f) ↦ inr (
    k,
    rw e (
        take_block_lem s k v.ready (omega (arith, f.below, v.block_room))
          (omega (arith, f.below, v.block_bits))),
    f,
    count_inside s.n_blocks 0 k s.block_map (omega (arith, f.below, v.block_bits)) (omega arith)
        (omega (arith, f.below)) f.clear,
  )
]

-- The state once inode `k` has been marked.
abbrev pub taken_inode : ℕ → State → State
taken_inode k s = record s { inode_map = fd_set k s.inode_map }

mark_inode_lem :
    (s : State) (i : ℕ) → i < 8 * length s.inode_map → mark_inode i s ≡ done tt (taken_inode i s)
unfolding mark_inode
mark_inode_lem s b room = ground arith

-- In a sound state `get_free_inode` returns the first free inode from 2 on and marks it in memory,
-- or fails with ENOSPC and changes nothing, and then no inode from 2 on is free.
pub get_free_inode_lem :
    (s : State)
    → IsSound s
    → ((get_free_inode s ≡ fail enospc s) × AllSet 2 s.n_inodes s.inode_map)
      ⊎ ((k : ℕ) × (get_free_inode s ≡ done k (taken_inode k s))
          × IsFirst 2 s.n_inodes s.inode_map k)
unfolding get_free_inode first_clear
get_free_inode_lem s v = elim (dec_lt s.n_inodes 2) [
  | yes few ↦ inl (no_room few, λ j above below. absurd (omega arith))
  | no many ↦ elim (first_clear_lem (s.n_inodes - 2) 2 s.n_inodes s.inode_map (omega arith)) [
    | inl (e, all) ↦ inl (rw e refl, all)
    | inr (k, e, f) ↦ inr (
      k,
      rw e (
          bind_done (mark_inode k) (λ _. pure k)
            (mark_inode_lem s k (omega (arith, f.below, v.inode_bits)))),
      f,
    )
  ]
]
  where
    no_room :
        s.n_inodes < 2 → take_inode (first_clear (s.n_inodes - 2) 2 s.inode_map) s ≡ fail enospc s
    no_room few = let z : s.n_inodes - 2 ≡ 0 = omega arith in rw z refl

return_taken :
    (s : State) (k : ℕ)
    → k < 8 * length s.block_map
    → return_blk k (taken_block k s)
      ≡ done tt (record (taken_block k s) { block_map = fd_clr k (fd_set k s.block_map) })
unfolding return_blk
return_taken s k room = ground (arith, length-fd_set k s.block_map)

clr-set :
    (k j : ℕ) (m : Bitmap)
    → k < 8 * length m
    → fd_isset k m ≡ false
    → fd_isset j (fd_clr k (fd_set k m)) ≡ fd_isset j m
clr-set k j m room clear = ground (
  arith,
  length-fd_set k m,
  fd_isset-fd_clr k j (fd_set k m),
  fd_isset-fd_set k j m room,
  λ (e : k ≡ j). ap (λ t. fd_isset t m) e,
)

-- A block that is taken and then returned is free again: where `get_free_blk` succeeds in a sound
-- state, `return_blk` of its result does too, and every bit of the block map is as it was.
pub return-get_free_blk :
    (s : State) {k : ℕ} {u : State}
    → IsSound s
    → get_free_blk s ≡ done k u
    → (t : State) × ((get_free_blk >>= return_blk) s ≡ done tt t)
      × ((j : ℕ) → fd_isset j t.block_map ≡ fd_isset j s.block_map)
return-get_free_blk s v got = elim (get_free_blk_lem s v) [
  | inl (failed, _) ↦ absurd (fail-ne-done failed got)
  | inr (k, taken, f, _) ↦ (
    record (taken_block k s) { block_map = fd_clr k (fd_set k s.block_map) },
    bind_done get_free_blk return_blk taken
        ∙ return_taken s k (omega (arith, f.below, v.block_bits)),
    λ j. clr-set k j s.block_map (omega (arith, f.below, v.block_bits)) f.clear,
  )
]

-- A new inode number is one of the free ones.
pub taken-bounds :
    (s : State) {k : ℕ} {u : State}
    → IsSound s
    → get_free_inode s ≡ done k u
    → (2 ≤ k) × (k < s.n_inodes)
taken-bounds s {k} v got = elim (get_free_inode_lem s v) [
  | inl (failed, _) ↦ absurd (fail-ne-done failed got)
  | inr (k', taken, f) ↦ let e : k' ≡ k = cc in (omega (arith, f.above), omega (arith, f.below))
]
