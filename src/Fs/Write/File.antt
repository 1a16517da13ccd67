-- ===== src/Fs/Write/File.antt =====
-- fs_write of pmeunier-project/fs.c on a file whose direct blocks are there: the bytes it leaves, the
-- new size, the blocks it leaves alone, and what fs_read_dir then reads.
use cs.Common.{
  ℕ, ◌+◌, ◌-◌, ◌*◌, ◌/◌, ◌%◌, ◌^◌, ◌≤◌, ◌<◌, ◌≡◌, refl, ap, ◌∙◌, false, List, ◌++◌, some, arith,
  length, take, drop, take-append, get_elem?, max, ltb, leb, ◌||◌, if◌then◌else◌, dec_lt,
  length-append, length-set, length-drop, get_elem?-set_self,
}
use cs.Device.{Device, block_size}
use cs.Device.Laws.{IsReady}
use cs.Fs.Layout.{Inode, n_direct}
use cs.Fs.Layout.Codec.{All, All-map}
use cs.Fs.Monad.{State, done, inode_at, set_inode}
use cs.Fs.Monad.Laws.{bind_done}
use cs.Fs.Sound.{IsSound}
use cs.Fs.Inode.{stored, set_inode_lem, stored-IsSound}
use cs.Fs.Alloc.{update_inode, update_blk}
use cs.Fs.Alloc.Update.{IsData, Spares, update_inode_lem, update_blk_lem}
use cs.Fs.Directory.{inode_at_lem}
use cs.Fs.Translate.{is_dir, translate}
use cs.Fs.Read.{dir_size, sub_size, fs_read_dir}
use cs.Fs.Read.Laws.{contents, Direct, direct_lem}
use cs.Fs.Write.{fs_write_dir, fs_write, write_first, write_second, finish_write}
use cs.Fs.Write.Direct.{Distinct, Apart, Overwritten, contents_same, rounds_lem}

-- The pointers from `k` on, all of which stand in the inode's array.
rounds_enough :
    (v : Inode) (k : ℕ) (used rest : List ℕ)
    → length v.direct ≡ n_direct
    → drop k v.direct ≡ used ++ rest
    → length used ≤ n_direct - k
rounds_enough v k used rest shape split =
    omega (arith, length-drop k v.direct, length-append used rest, ap (λ t. length t) split)

module _ (s : State) (ready : IsReady s.disk) (inum : ℕ) {v : Inode}
    (held : get_elem? s.inodes inum ≡ some v) (shape : length v.direct ≡ n_direct) where
  write_dir_lem :
      (offset : ℕ) (used buf : List ℕ)
      → Direct s v (offset / block_size) used
      → Distinct used
      → offset % block_size ≡ 0
      → length buf ≤ block_size * length used
      → (disk : Device) × (fs_write_dir inum buf (length buf) offset s
          ≡ done 0 (record s { disk = disk }))
        × Overwritten s used buf disk
  unfolding fs_write_dir
  write_dir_lem offset used buf d apart aligned room = rw aligned (
      rounds_lem s inum (offset / block_size) (n_direct - offset / block_size) used d.rest buf
        (length buf) held d.split ready d.data_blocks apart
        (rounds_enough v (offset / block_size) used d.rest shape d.split) refl room)

  first_bytes :
      (used buf : List ℕ) (disk : Device)
      → Overwritten s used buf disk
      → take (length buf) (contents disk.content used) ≡ buf
  first_bytes used buf disk o =
      ap (λ c. take (length buf) c) o.holds
      ∙ take-append buf (drop (length buf) (contents s.disk.content used)) (length buf) refl

  -- On a device that answers, what fs_write_dir writes from the start of a block into direct
  -- blocks of an inode with its six pointers, which hold data and of which no two are the same, is
  -- what fs_read_dir then reads there, byte for byte.
  pub fs_read_dir-fs_write_dir :
      (offset : ℕ) (used buf : List ℕ)
      → Direct s v (offset / block_size) used
      → Distinct used
      → offset % block_size ≡ 0
      → length buf ≤ block_size * length used
      → (t : State) × (fs_write_dir inum buf (length buf) offset s ≡ done 0 t)
        × (fs_read_dir inum (length buf) (length buf) offset t ≡ done (0, buf) t)
  fs_read_dir-fs_write_dir offset used buf d apart aligned room =
      let (disk, run, o) = write_dir_lem offset used buf d apart aligned room in
      let t : State = record s { disk = disk } in
      (
        t,
        run,
        direct_lem t inum offset (length buf) used o.ready held
              (record { rest = d.rest; split = d.split; data_blocks = o.blocks }) aligned room
            ∙ ap (λ bytes. done (0, bytes) t) (first_bytes used buf disk o),
      )

-- `s` with another device that is as large and answers.
moved-IsSound :
    (s : State) (disk : Device)
    → IsSound s
    → IsReady disk
    → disk.nblks ≡ s.disk.nblks
    → IsSound (record s { disk = disk })
moved-IsSound s disk h ready same = record {
  ready = ready;
  block_bits = h.block_bits;
  block_room = omega (arith, h.block_room, same);
  inode_bits = h.inode_bits;
  inode_numbers = h.inode_numbers;
  inode_room = h.inode_room;
  map_base = h.map_base;
  blocks_base = h.blocks_base;
  region_base = h.region_base;
  region_room = omega (arith, h.region_room, same);
}

-- The inode after a write that ends at `end`.
abbrev grown : Inode → ℕ → Inode
grown v end = record v { size = max v.size end }

grown_lem :
    (v : Inode) (end : ℕ)
    → v.size < 2 ^ 31
    → end < 2 ^ 32
    → (if leb (2 ^ 31) v.size || ltb v.size end then record v { size = end % 2 ^ 32 } else v)
      ≡ grown v end
grown_lem v end sized fits = elim (dec_lt v.size end) [
  | yes longer ↦
      let e : end % 2 ^ 32 ≡ max v.size end = omega arith in
      ground (arith, ap (λ n. record v { size = n }) e)
  | no shorter ↦
      let e : v.size ≡ max v.size end = omega arith in
      ground (arith, ap (λ n. record v { size = n }) e)
]

finish_steps :
    (inum len end : ℕ) {v : Inode} (s1 s2 s3 s4 : State)
    → get_elem? s1.inodes inum ≡ some v
    → v.size < 2 ^ 31
    → end < 2 ^ 32
    → set_inode inum (grown v end) s1 ≡ done tt s2
    → update_inode inum s2 ≡ done tt s3
    → update_blk s3 ≡ done tt s4
    → finish_write inum len 0 end s1 ≡ done len s4
unfolding finish_write sub_size
finish_steps inum len end {v} s1 s2 s3 s4 held sized fits e1 e2 e3 =
    bind_done (inode_at inum) _ (inode_at_lem s1 inum held)
    ∙ rw (grown_lem v end sized fits) (ground (arith, e1, e2, e3))

-- What `finish_write` leaves: the grown inode, and the blocks of data.
finish_lem :
    (s : State) (inum : ℕ) {v : Inode} (len end : ℕ)
    → IsSound s
    → get_elem? s.inodes inum ≡ some v
    → inum < length s.inodes
    → v.size < 2 ^ 31
    → end < 2 ^ 32
    → (disk : Device) × (finish_write inum len 0 end s
        ≡ done len (record (stored inum (grown v end) s) { disk = disk }))
      × Spares (stored inum (grown v end) s) disk
finish_lem s inum {v} len end h held inside sized fits =
    let s1 = stored inum (grown v end) s in
    let sound = stored-IsSound s inum (grown v end) h in
    let (d1, run1, sp1) =
      update_inode_lem s1 inum sound (omega (arith, length-set s.inodes inum (grown v end))) in
    let (d2, run2, sp2) = update_blk_lem s1 d1 sound sp1 in
    (
      d2,
      finish_steps inum len end s s1 (record s1 { disk = d1 }) (record s1 { disk = d2 }) held sized
          fits (set_inode_lem inum (grown v end) s inside) run1 run2,
      sp2,
    )

-- What a write of `buf` at `offset` into the blocks `used` of file `inum` leaves.
pub record Wrote (s : State) (inum : ℕ) (v : Inode) (offset : ℕ) (used buf : List ℕ) (t : State)
    : Type 0 where
  pub holds : contents t.disk.content used ≡ buf ++ drop (length buf) (contents s.disk.content used)
  pub inode : get_elem? t.inodes inum ≡ some (grown v (offset + length buf))
  pub others : (b : ℕ) → IsData s b → Apart b used → t.disk.content b ≡ s.disk.content b

module _ (s : State) (path : List ℕ) (h : IsSound s) (inum : ℕ) {v : Inode}
    (found : translate path s ≡ done inum s) (held : get_elem? s.inodes inum ≡ some v)
    (inside : inum < length s.inodes) (file : is_dir v.mode ≡ false) (sized : v.size < 2 ^ 31)
    (shape : length v.direct ≡ n_direct) where
  steps :
      (offset : ℕ) (buf : List ℕ) (t u : State)
      → offset ≤ v.size
      → offset < dir_size
      → 0 < length buf
      → fs_write_dir inum buf (length buf) offset s ≡ done 0 t
      → finish_write inum (length buf) 0 (offset + length buf) t ≡ done (length buf) u
      → fs_write path buf offset s ≡ done (length buf) u
  unfolding fs_write write_first write_second sub_size
  steps offset buf t u within below some_bytes e1 e2 =
      ground (arith, found, file, inode_at_lem s inum held, e1, e2)

  -- In a sound state, for a path that leads to a file with its six direct pointers and a size
  -- below 2^31: writing at least one byte from the start of a block that is at or before the end
  -- of the file, into direct blocks that hold data and of which no two are the same, returns the
  -- number of bytes; then the blocks hold these bytes and behind them what they held there, the
  -- size is the larger of the old one and the end of the write, and every other block of data is as
  -- it was.
  pub fs_write_lem :
      (offset : ℕ) (used buf : List ℕ)
      → Direct s v (offset / block_size) used
      → Distinct used
      → All (IsData s) used
      → offset % block_size ≡ 0
      → offset ≤ v.size
      → offset < dir_size
      → 0 < length buf
      → length buf ≤ block_size * length used
      → (t : State) × (fs_write path buf offset s ≡ done (length buf) t)
        × Wrote s inum v offset used buf t
  fs_write_lem offset used buf d apart data_blocks aligned within below some_bytes room =
      let (disk, run, o) =
        write_dir_lem s h.ready inum held shape offset used buf d apart aligned room in
      let s1 : State = record s { disk = disk } in
      let (disk', run', sp) =
        finish_lem s1 inum (length buf) (offset + length buf)
          (moved-IsSound s disk h o.ready o.nblks) held inside sized
          (omega (arith, rounds_enough v (offset / block_size) used d.rest shape d.split)) in
      let s2 = stored inum (grown v (offset + length buf)) s1 in
      let meta : (b : ℕ) → IsData s b → IsData s2 b =
        λ b h. omega (arith, length-set s.inodes inum (grown v (offset + length buf))) in
      (
        record s2 { disk = disk' },
        steps offset buf s1 (record s2 { disk = disk' }) within below some_bytes run run',
        record {
          holds =
              contents_same disk'.content disk.content used
                (All-map used (λ b h. sp.same b (meta b h)) data_blocks)
              ∙ o.holds;
          inode = get_elem?-set_self s.inodes inum (grown v (offset + length buf)) inside;
          others = λ b h out. sp.same b (meta b h) ∙ o.others b out;
        },
      )
