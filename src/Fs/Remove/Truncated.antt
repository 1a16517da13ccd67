-- ===== src/Fs/Remove/Truncated.antt =====
-- What fs_truncate of pmeunier-project/fs.c leaves behind.
use cs.Common.{
  ℕ, ◌<◌, ◌≡◌, sym, ap, ◌∙◌, false, List, ◌++◌, some, arith, length, map, fd_isset, if◌then◌else◌,
  get_elem?, set, get_elem?-set_self, length-set,
}
use cs.Device.{Device}
use cs.Device.Laws.{IsReady}
use cs.Fs.Layout.{Inode}
use cs.Fs.Monad.{State, done, pure, set_inode}
use cs.Fs.Monad.Laws.{bind_done}
use cs.Fs.Sound.{IsSound}
use cs.Fs.Alloc.{update_inode, update_blk}
use cs.Fs.Alloc.Update.{update_inode_lem, update_blk_lem}
use cs.Fs.Inode.{stored, set_inode_lem, stored-IsSound}
use cs.Fs.Directory.{inode_at_lem}
use cs.Fs.Translate.{is_dir, translate}
use cs.Fs.Remove.{
  return_all, fs_truncate_dir, fs_truncate_indir1, fs_truncate_indir2, release_with, truncate_inode,
  fs_truncate,
}
use cs.Fs.Remove.Freed.{
  points_to, InMap, InDisk, length-clear_all, isset-clear_all, freed, return_all_lem, pointers_at,
  behind, indir1_lem, indir2_lem, with_own, release_with_lem, All-split, InMap-eq, clear_all-append,
}

-- Every block that an inode uses: the direct pointers' blocks, those behind the first indirect
-- block with that block, and the data behind the second one with that block.
unfoldable pub owned : State → Inode → List ℕ
owned s v =
    v.direct
    ++ (with_own v.indir_1 (pointers_at s v.indir_1)
        ++ with_own v.indir_2 (behind s.disk.content (pointers_at s v.indir_2)))

-- The pointers of an inode are inside the map and the device.
pub record InRange (s : State) (v : Inode) : Type 0 where
  pub in_map : InMap s.block_map (owned s v)
  pub first_level : v.indir_1 < s.disk.nblks
  pub second_level : v.indir_2 < s.disk.nblks
  pub tables : InDisk s (pointers_at s v.indir_2)

indir1_part :
    (s : State) (v : Inode)
    → IsReady s.disk
    → v.indir_1 < s.disk.nblks
    → InMap s.block_map (with_own v.indir_1 (pointers_at s v.indir_1))
    → release_with fs_truncate_indir1 v.indir_1 s
      ≡ done tt (freed (with_own v.indir_1 (pointers_at s v.indir_1)) s)
indir1_part s v ready room h =
    release_with_lem fs_truncate_indir1 v.indir_1 (pointers_at s v.indir_1) s
      (λ inner. indir1_lem v.indir_1 s ready room inner) h

indir2_part :
    (s : State) (v : Inode)
    → IsReady s.disk
    → v.indir_2 < s.disk.nblks
    → InDisk s (pointers_at s v.indir_2)
    → InMap s.block_map (with_own v.indir_2 (behind s.disk.content (pointers_at s v.indir_2)))
    → release_with fs_truncate_indir2 v.indir_2 s
      ≡ done tt (freed (with_own v.indir_2 (behind s.disk.content (pointers_at s v.indir_2))) s)
indir2_part s v ready room inside h =
    release_with_lem fs_truncate_indir2 v.indir_2 (behind s.disk.content (pointers_at s v.indir_2))
      s (λ inner. indir2_lem v.indir_2 s ready room inside inner) h

-- The inode that `fs_truncate` leaves.
abbrev pub emptied : Inode → Inode
emptied v = record v { direct = map (λ _. 0) v.direct; indir_1 = 0; indir_2 = 0; size = 0 }

freed-IsSound : (s : State) (bs : List ℕ) → IsSound s → IsSound (freed bs s)
freed-IsSound s bs h = record {
  ready = h.ready;
  block_bits = omega (arith, h.block_bits, length-clear_all bs s.block_map);
  block_room = h.block_room;
  inode_bits = h.inode_bits;
  inode_numbers = h.inode_numbers;
  inode_room = h.inode_room;
  map_base = h.map_base;
  blocks_base = h.blocks_base;
  region_base = h.region_base;
  region_room = h.region_room;
}

-- Freeing blocks and storing an inode keep a state sound.
changed-IsSound :
    (s : State) (bs : List ℕ) (inum : ℕ) (v : Inode)
    → IsSound s
    → IsSound (stored inum v (freed bs s))
changed-IsSound s bs inum v h = stored-IsSound (freed bs s) inum v (freed-IsSound s bs h)

direct_part :
    (s : State) (ptrs : List ℕ)
    → InMap s.block_map ptrs
    → fs_truncate_dir ptrs s ≡ done (map (λ _. 0) ptrs) (freed ptrs s)
unfolding fs_truncate_dir
direct_part s ptrs h =
    bind_done (return_all ptrs) (λ _. pure (map (λ _. 0) ptrs)) (return_all_lem ptrs s h)

-- The effects of the body, one after the other.
truncate_inode_steps :
    (inum : ℕ) (v : Inode) (zeros : List ℕ) (s1 s2 s3 s4 s5 s6 s7 : State)
    → fs_truncate_dir v.direct s1 ≡ done zeros s2
    → release_with fs_truncate_indir1 v.indir_1 s2 ≡ done tt s3
    → release_with fs_truncate_indir2 v.indir_2 s3 ≡ done tt s4
    → set_inode inum (record v { direct = zeros; indir_1 = 0; indir_2 = 0; size = 0 }) s4
      ≡ done tt s5
    → update_inode inum s5 ≡ done tt s6
    → update_blk s6 ≡ done tt s7
    → truncate_inode inum v s1 ≡ done tt s7
unfolding truncate_inode
truncate_inode_steps inum v zeros s1 s2 s3 s4 s5 s6 s7 e1 e2 e3 e4 e5 e6 =
    ground (arith, e1, e2, e3, e4, e5, e6)

module _ (s : State) (path : List ℕ) (h : IsSound s) {inum : ℕ} {v : Inode}
    (found : translate path s ≡ done inum s) (held : get_elem? s.inodes inum ≡ some v)
    (inside : inum < length s.inodes) (file : is_dir v.mode ≡ false) (range : InRange s v) where
  abbrev one : List ℕ
  one = with_own v.indir_1 (pointers_at s v.indir_1)

  abbrev two : List ℕ
  two = with_own v.indir_2 (behind s.disk.content (pointers_at s v.indir_2))

  all_freed :
      stored inum (emptied v) (freed two (freed one (freed v.direct s)))
      ≡ stored inum (emptied v) (freed (owned s v) s)
  unfolding owned
  all_freed =
      ap (λ m. record s { block_map = m; inodes = set s.inodes inum (emptied v) })
        (sym (clear_all-append one two _)
          ∙ sym (clear_all-append v.direct (one ++ two) s.block_map))

  truncate_lem :
      (disk : Device) × (truncate_inode inum v s
        ≡ done tt (record (stored inum (emptied v) (freed (owned s v) s)) { disk = disk }))
  unfolding owned
  truncate_lem =
      let whole = range.in_map in
      let (in_direct, rest) = All-split v.direct (one ++ two) s.block_map whole in
      let (in_one, in_two) = All-split one two s.block_map rest in
      let s2 = freed v.direct s in
      let s3 = freed one s2 in
      let s4 = freed two s3 in
      let s5 = stored inum (emptied v) (freed (owned s v) s) in
      let sound : IsSound s5 = changed-IsSound s (owned s v) inum (emptied v) h in
      let (d1, e5, sp1) =
        update_inode_lem s5 inum sound
          (omega (arith, inside, length-set s.inodes inum (emptied v))) in
      let (d2, e6, sp2) = update_blk_lem s5 d1 sound sp1 in
      (
        d2,
        truncate_inode_steps inum v (map (λ _. 0) v.direct) s s2 s3 s4 s5 _ _
            (direct_part s v.direct in_direct)
            (indir1_part s2 v h.ready range.first_level
              (InMap-eq one _ _ (sym (length-clear_all v.direct s.block_map)) in_one))
            (indir2_part s3 v h.ready range.second_level range.tables (
              InMap-eq two _ _
                (sym (length-clear_all v.direct s.block_map) ∙ sym (length-clear_all one _))
                in_two))
            (set_inode_lem inum (emptied v) s4 inside ∙ ap (λ t. done tt t) all_freed) e5 e6,
      )

  -- Truncating a file of a sound state, whose pointers are inside the maps and the device, to
  -- length 0 succeeds; a block is free afterwards if it holds the file's data, directly or through
  -- one or two levels of pointers, or is named by one of the inode's two indirect pointers, and is
  -- as it was otherwise; the inode keeps no pointer and has size 0.
  pub truncate-frees :
      (t : State) × (fs_truncate path 0 s ≡ done tt t)
      × ((j : ℕ)
          → fd_isset j t.block_map
            ≡ (if points_to j (owned s v) then false else fd_isset j s.block_map))
      × (get_elem? t.inodes inum ≡ some (emptied v))
  unfolding fs_truncate
  truncate-frees =
      let (disk, ran) = truncate_lem in
      (
        record (stored inum (emptied v) (freed (owned s v) s)) { disk = disk },
        ground (arith, found, inode_at_lem s inum held, file, ran),
        λ j. isset-clear_all j (owned s v) s.block_map range.in_map,
        get_elem?-set_self s.inodes inum (emptied v) inside,
      )
