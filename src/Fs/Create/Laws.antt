-- ===== src/Fs/Create/Laws.antt =====
-- What fs_mknod and fs_mkdir of pmeunier-project/fs.c leave behind.
use cs.Common.{
  ℕ, ◌%◌, ◌^◌, ◌<◌, ◌≡◌, ◌≢◌, ◌∙◌, sym, ap, true, false, some, List, arith, length, set, length-set,
  get_elem?, get_elem?-set_self, get_elem?-set_ne, bit_or, ◌==◌, if◌then◌else◌,
}
use cs.Device.{Device}
use cs.Device.Laws.{IsReady, written}
use cs.Fs.Layout.{Dirent, Inode, encode_dir}
use cs.Fs.Monad.{State, Errno, done, fail}
use cs.Fs.Sound.{IsSound}
use cs.Fs.Dir.{Name, str_eq, find_in_dir, add_entry}
use cs.Fs.Dir.Laws.{IsName, Absent-of_find}
use cs.Fs.Dir.Edits.{find_free_dir_lem, find-add_self, find-add_ne, add_entry-fits}
use cs.Fs.Alloc.Laws.{write_lem, taken-bounds}
use cs.Fs.Alloc.Update.{Spares}
use cs.Fs.Translate.{is_dir, is_reg, lookup, translate, translate_1, slash}
use cs.Fs.Create.{Caller, create, fresh_inode, fs_mknod, fs_mkdir, s_ifreg, s_ifdir}
use cs.Fs.Directory.{
  IsDirectory, IsTidy, entries_at, read_lem, elem_at_lem, inode_at_lem, lookup_lem, unused_leaf,
  entries_at_written, length-entries_at,
}
use cs.Fs.Create.Attributes.{HasRoom, with_inode, set_attributes_lem}

answer :
    (x k : ℕ) (t : State)
    → x ≡ k
    → 0 < k
    → (if x == 0 then fail Errno.enoent t else done x t) ≡ done k t
answer x k t e pos = ground arith

module _ (who : Caller) (s : State) (path : List ℕ) (h : IsSound s) {e : Errno} {parent b i k : ℕ}
    {leaf : Name} {p v : Inode} (missing : translate path s ≡ fail e s)
    (above : translate_1 path s ≡ done (parent, some leaf) s) (dir : IsDirectory s parent b p)
    (tidy : IsTidy (entries_at s b)) (room : HasRoom s (entries_at s b) i k v)
    (apart : parent ≢ k) where
  -- The state after a file's creation, over the disk that the metadata writes left.
  abbrev created : ℕ → Device → State
  created mode disk = record (with_inode k (fresh_inode who mode 0 v) s) {
    disk = written disk b (encode_dir (add_entry i leaf (k % 2 ^ 30) (entries_at s b)));
  }

  create_lem :
      (mode : ℕ)
      → (disk : Device) × (create who path mode s ≡ done tt (created mode disk)) × Spares s disk
  unfolding create
  create_lem mode =
      let (d, ran, sp) = set_attributes_lem who s (entries_at s b) leaf mode h room in
      let t : State = record (with_inode k (fresh_inode who mode 0 v) s) { disk = d } in
      let parent_kept : get_elem? t.inodes parent ≡ some p =
        get_elem?-set_ne s.inodes (fresh_inode who mode 0 v) (λ e. apart (sym e)) ∙ dir.held in
      let entries : List Dirent = add_entry i leaf (k % 2 ^ 30) (entries_at s b) in
      (
        d,
        ground (
          arith,
          missing,
          above,
          dir.typed,
          inode_at_lem s parent dir.held,
          elem_at_lem p.direct 0 s dir.first,
          read_lem s b h.ready dir.inside,
          ran,
          inode_at_lem t parent parent_kept,
          elem_at_lem p.direct 0 t dir.first,
          write_lem t b (encode_dir entries) sp.ready (omega (arith, dir.inside, sp.nblks)),
        ),
        sp,
      )

  -- The new file's entry in its directory, and the entries as they were.
  entries_created :
      (mode : ℕ)
      → IsName leaf
      → (disk : Device)
      → entries_at (created mode disk) b ≡ add_entry i leaf (k % 2 ^ 30) (entries_at s b)
  entries_created mode name disk =
      let (fits, sized) =
        add_entry-fits (entries_at s b) i leaf (k % 2 ^ 30) name (omega arith) tidy.fits in
      entries_at_written disk b (add_entry i leaf (k % 2 ^ 30) (entries_at s b)) fits
        (sized ∙ length-entries_at s b)

  created-IsDirectory :
      (mode : ℕ) (disk : Device) → Spares s disk → IsDirectory (created mode disk) parent b p
  created-IsDirectory mode disk sp = record {
    held = get_elem?-set_ne s.inodes (fresh_inode who mode 0 v) (λ e. apart (sym e)) ∙ dir.held;
    typed = dir.typed;
    first = dir.first;
    is_data = omega (arith, dir.is_data, length-set s.inodes k (fresh_inode who mode 0 v));
    inside = omega (arith, dir.inside, sp.nblks);
  }

  -- In the new state the leaf leads to the new inode, and any other name where it did.
  create_finds :
      (mode : ℕ)
      → IsName leaf
      → (t : State) × (create who path mode s ≡ done tt t)
        × (lookup parent leaf t ≡ done k t)
        × (get_elem? t.inodes k ≡ some (fresh_inode who mode 0 v))
        × ((other : Name)
            → leaf ≢ other
            → find_in_dir (entries_at t b) other ≡ find_in_dir (entries_at s b) other)
  create_finds mode name =
      let (disk, ran, sp) = create_lem mode in
      let es = entries_at s b in
      let unused = unused_leaf s path h.ready missing above dir in
      let free = (find_free_dir_lem es i room.entry).0 in
      let small : k % 2 ^ 30 ≡ k = omega (arith, h.inode_numbers, room.inside) in
      let range = taken-bounds s h room.inode in
      let found : find_in_dir (entries_at (created mode disk) b) leaf ≡ k =
        ap (λ t. find_in_dir t leaf) (entries_created mode name disk)
        ∙ find-add_self es i leaf (k % 2 ^ 30) free name
            (Absent-of_find leaf es tidy.no_zero unused)
        ∙ small in
      let ready : IsReady (created mode disk).disk = record {
        available = sp.ready.available;
        complete = sp.ready.complete;
        small = sp.ready.small;
      } in
      (
        created mode disk,
        ran,
        lookup_lem (created mode disk) parent b leaf ready (created-IsDirectory mode disk sp)
            ∙ answer _ k (created mode disk) found (omega (arith, range)),
        get_elem?-set_self s.inodes k (fresh_inode who mode 0 v) room.inside,
        λ other ne.
            ap (λ t. find_in_dir t other) (entries_created mode name disk)
            ∙ find-add_ne es i leaf other (k % 2 ^ 30) free name ne,
      )

  -- For a path that is not found, whose parent is a directory of tidy entries with a free one, in a
  -- sound state with a free inode that is not the parent's: if the leaf fits an entry and the mode
  -- names no other type of file, `fs_mknod` succeeds, the leaf is then looked up as the new inode,
  -- which holds the caller's uid and gid cut to 16 bits, the mode with the type of a regular file,
  -- the time cut to 32 bits as both times, the size 0 and the first pointer 0, with the rest of the
  -- free inode as it was; another name leads where it did.
  pub mknod-lookup :
      (mode : ℕ) (other : Name)
      → leaf ≢ other
      → IsName leaf
      → is_reg (bit_or mode s_ifreg) ≡ true
      → str_eq path slash ≡ false
      → (t : State) × (fs_mknod who path mode s ≡ done tt t)
        × (lookup parent leaf t ≡ done k t)
        × (get_elem? t.inodes k
            ≡ some (record v {
              uid = who.uid % 2 ^ 16;
              gid = who.gid % 2 ^ 16;
              mode = bit_or mode s_ifreg;
              ctime = who.now % 2 ^ 32;
              mtime = who.now % 2 ^ 32;
              size = 0;
              direct = set v.direct 0 0;
            }))
        × (find_in_dir (entries_at t b) other ≡ find_in_dir (entries_at s b) other)
  unfolding fs_mknod fresh_inode
  mknod-lookup mode other ne name regular below =
      let (t, ran, found, filled, others) = create_finds (bit_or mode s_ifreg) name in
      (t, ground (arith, ran), found, filled, others other ne)

  -- For a path that is not found, whose parent is a directory of tidy entries with a free one, in a
  -- sound state with a free inode that is not the parent's: if the leaf fits an entry and the mode
  -- names no other type of file, `fs_mkdir` succeeds, but it asks for no block: the new directory's
  -- first block is block 0, the superblock, where its entries would be written.
  pub mkdir-superblock :
      (mode : ℕ)
      → IsName leaf
      → is_dir (bit_or mode s_ifdir) ≡ true
      → str_eq path slash ≡ false
      → 0 < length v.direct
      → (t : State) × (new : Inode) × (fs_mkdir who path mode s ≡ done tt t)
        × (lookup parent leaf t ≡ done k t)
        × (get_elem? t.inodes k ≡ some new)
        × (is_dir new.mode ≡ true)
        × (get_elem? new.direct 0 ≡ some 0)
  unfolding fs_mkdir fresh_inode
  mkdir-superblock mode name typed below pointers =
      let (t, ran, found, filled, others) = create_finds (bit_or mode s_ifdir) name in
      (
        t,
        fresh_inode who (bit_or mode s_ifdir) 0 v,
        ground (arith, ran),
        found,
        filled,
        typed,
        get_elem?-set_self v.direct 0 0 pointers,
      )
