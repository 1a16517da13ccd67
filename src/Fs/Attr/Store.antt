-- ===== src/Fs/Attr/Store.antt =====
-- The operations of pmeunier-project/fs.c that store one inode, fs_chmod and fs_utime, leave the metadata
-- on the device as it is in memory.
use cs.Common.{
  ℕ, bit_or, if◌then◌else◌, zero, suc, subst, ◌+◌, ◌-◌, ◌*◌, ◌/◌, ◌%◌, ◌^◌, ◌<◌, ◌≡◌, refl, sym, ap,
  ◌∙◌, some, List, [], ◌∷◌, length, set, get_elem?, arith, length-set, ℕ_discrete,
}
use cs.Fs.Layout.{Inode, decode_super, inodes_per_blk}
use cs.Fs.Layout.Codec.{All}
use cs.Fs.Layout.RoundTrip.{InodeFits}
use cs.Fs.Monad.{State, M, done, inode_at, set_inode, ◌>>◌}
use cs.Fs.Monad.Laws.{bind_done}
use cs.Fs.Directory.{inode_at_lem}
use cs.Fs.Alloc.{update_inode}
use cs.Fs.Attr.{fs_getattr, cpy_stat, int_to_long, int_quotient, fs_init, fs_chmod, fs_utime}
use cs.Fs.Inode.{stored, set_inode_lem}
use cs.Fs.Translate.{translate, is_dir}
use cs.Fs.Create.{s_ifdir, s_ifreg}
use cs.Fs.Attr.Mount.{region_block, Synced, fs_init-Synced}
use cs.Fs.Attr.Written.{
  All-set, updated, length-region_block, update_inode_synced, updated_ne, updated_map,
  updated_region, region_block-set,
}

-- The state with the inode replaced, in memory and on the device.
pub kept : ℕ → Inode → State → State
kept inum v s = record (stored inum v s) { disk = updated (stored inum v s) inum }

kept-Synced :
    (s : State) (inum : ℕ) (v : Inode)
    → Synced s
    → inum < length s.inodes
    → InodeFits v
    → Synced (kept inum v s)
unfolding kept updated
kept-Synced s inum v h room fits =
    let t = stored inum v s in
    let i = inum / inodes_per_blk in
    let disk_ne = updated_ne t inum in
    let super = disk_ne 0 (omega arith) (omega arith) in
    let count : length t.inodes ≡ s.n_inodes * inodes_per_blk =
      omega (arith, length-set s.inodes inum v, h.count) in
    let all = All-set InodeFits s.inodes inum v h.fits fits in
    let same_super = ap decode_super super in
    record {
      ready = record {
        available = h.ready.available;
        complete = h.ready.complete;
        small = h.ready.small;
      };
      room = h.room;
      bases = h.bases;
      root = ap (λ sb. sb.root_inode) same_super ∙ h.root;
      region_size = ap (λ sb. sb.inode_region_sz) same_super ∙ h.region_size;
      blocks = ap (λ sb. sb.num_blocks) same_super ∙ h.blocks;
      map_sizes = (
        ap (λ sb. sb.inode_map_sz) same_super ∙ h.map_sizes.0,
        ap (λ sb. sb.block_map_sz) same_super ∙ h.map_sizes.1,
      );
      inode_map = updated_map t inum h.map_length;
      block_map = disk_ne 2 (omega arith) (omega arith) ∙ h.block_map;
      map_length = h.map_length;
      count = count;
      fits = all;
      region = λ k less. elim (ℕ_discrete i k) [
        | yes here ↦
            subst (λ j. (updated t inum).content (3 + j) ≡ region_block t.inodes j) here
              (updated_region t inum
                (length-region_block t.inodes i s.n_inodes all count (omega arith)))
        | no other ↦
            disk_ne (3 + k) (omega arith) (omega arith)
            ∙ h.region k less
            ∙ sym (region_block-set s.inodes inum k v other)
      ];
      clean = h.clean;
    }

keep_lem :
    (s : State) (inum : ℕ) (v : Inode)
    → Synced s
    → inum < length s.inodes
    → (set_inode inum v >> update_inode inum) s ≡ done tt (kept inum v s)
unfolding kept updated
keep_lem s inum v h room =
    let t = stored inum v s in
    bind_done (set_inode inum v) _ (set_inode_lem inum v s room)
    ∙ update_inode_synced t inum
        (record {
          available = h.ready.available;
          complete = h.ready.complete;
          small = h.ready.small;
        })
        h.bases (omega (arith, length-set s.inodes inum v)) (omega (arith, h.room, h.count))

-- An element that is there lies inside, and has what all have.
All-get :
    {A : Type 0} (P : A → Type 0) (xs : List A) (i : ℕ) (v : A)
    → All P xs
    → get_elem? xs i ≡ some v
    → (i < length xs) × P v
All-get P [] i v h e = absurd cc
All-get P (x ∷ xs) zero v h e = let e' : x ≡ v = cc in (omega arith, subst P e' h.0)
All-get P (x ∷ xs) (suc i) v h e = let r = All-get P xs i v h.1 e in (omega (arith, r.0), r.1)

-- An inode stored by one of the operations, and what mounting then finds.
Remounts : (ℕ → List ℕ) → State → ℕ → Inode → M (Unit {0}) → Type 0
Remounts fresh s inum v m =
    (t : State) × (m s ≡ done tt t)
    × (fs_init fresh t ≡ done tt t)
    × (t.inodes ≡ set s.inodes inum v)

cpy_stat_lem :
    (v : Inode)
    → v.size + 1024 < 2 ^ 31
    → cpy_stat v ≡ record {
      st_uid = v.uid;
      st_gid = v.gid;
      st_mode = v.mode;
      st_atime = v.mtime;
      st_ctime = v.ctime;
      st_mtime = v.mtime;
      st_size = v.size;
      st_blksize = 1024;
      st_nlink = 1;
      st_blocks = (v.size + 1023) / 1024;
    }
unfolding cpy_stat int_to_long int_quotient
cpy_stat_lem v small =
    let sum : (v.size + 1024 - 1) % 2 ^ 32 ≡ v.size + 1023 = omega arith in rw sum (ground arith)

module _ (fresh : ℕ → List ℕ) (s : State) (path : List ℕ) (h : Synced s) (none_left : fresh 0 ≡ [])
    {inum : ℕ} {v : Inode} (found : translate path s ≡ done inum s)
    (held : get_elem? s.inodes inum ≡ some v) where
  remounts :
      (m : M (Unit {0})) (w : Inode)
      → InodeFits w
      → m s ≡ (set_inode inum w >> update_inode inum) s
      → Remounts fresh s inum w m
  unfolding Remounts kept
  remounts m w fits same =
      let room = (All-get InodeFits s.inodes inum v h.fits held).0 in
      (
        kept inum w s,
        same ∙ keep_lem s inum w h room,
        fs_init-Synced fresh (kept inum w s) (kept-Synced s inum w h room fits) none_left,
        refl,
      )

  -- On a device that holds the metadata as it is in memory, where new memory of no bytes holds
  -- none, for a path that leads to an inode whose size is below 2^31 - 1024: fs_getattr, which mounts
  -- again, changes nothing and gives the uid, gid, mode and size of that inode, its mtime as
  -- st_atime and st_mtime, its ctime as st_ctime, one link, blocks of 1024 bytes, and as their number
  -- the size over 1024, rounded up.
  pub fs_getattr_lem :
      v.size + 1024 < 2 ^ 31
      → fs_getattr fresh path s
        ≡ done
            (record {
              st_uid = v.uid;
              st_gid = v.gid;
              st_mode = v.mode;
              st_atime = v.mtime;
              st_ctime = v.ctime;
              st_mtime = v.mtime;
              st_size = v.size;
              st_blksize = 1024;
              st_nlink = 1;
              st_blocks = (v.size + 1023) / 1024;
            })
            s
  unfolding fs_getattr
  fs_getattr_lem small = rw (← cpy_stat_lem v small) (
      bind_done (fs_init fresh) _ (fs_init-Synced fresh s h none_left)
      ∙ bind_done (translate path) _ found
      ∙ bind_done (inode_at inum) _ (inode_at_lem s inum held))

  -- On a device that holds the metadata as it is in memory, where new memory of no bytes holds
  -- none, for a path that leads to an inode: fs_utime stores the time, cut to 32 bits, in that
  -- inode, and mounting again changes nothing.
  pub fs_utime-fs_init :
      (modtime : ℕ)
      → (t : State) × (fs_utime path modtime s ≡ done tt t)
        × (fs_init fresh t ≡ done tt t)
        × (t.inodes ≡ set s.inodes inum (record v { mtime = modtime % 2 ^ 32 }))
  unfolding fs_utime Remounts
  fs_utime-fs_init modtime =
      let fits = (All-get InodeFits s.inodes inum v h.fits held).1 in
      remounts (fs_utime path modtime) (record v { mtime = modtime % 2 ^ 32 })
        (record {
          ids = fits.ids;
          words = (fits.words.0, fits.words.1, omega arith, fits.words.3);
          indirs = fits.indirs;
          directs = fits.directs;
          six = fits.six;
          pads = fits.pads;
          three = fits.three;
        })
        (bind_done (translate path) _ found
          ∙ bind_done (inode_at inum) _ (inode_at_lem s inum held))

  -- On a device that holds the metadata as it is in memory, where new memory of no bytes holds
  -- none, for a path that leads to an inode: fs_chmod with a mode that fits 32 bits stores the
  -- mode, with the type of the inode, in that inode, and mounting again changes nothing.
  pub fs_chmod-fs_init :
      (mode : ℕ)
      → bit_or mode (if is_dir v.mode then s_ifdir else s_ifreg) < 2 ^ 32
      → (t : State) × (fs_chmod path mode s ≡ done tt t)
        × (fs_init fresh t ≡ done tt t)
        × (t.inodes
            ≡ set s.inodes inum
                (record v { mode = bit_or mode (if is_dir v.mode then s_ifdir else s_ifreg) }))
  unfolding fs_chmod Remounts
  fs_chmod-fs_init mode small =
      let fits = (All-get InodeFits s.inodes inum v h.fits held).1 in
      remounts (fs_chmod path mode)
        (record v { mode = bit_or mode (if is_dir v.mode then s_ifdir else s_ifreg) })
        (record {
          ids = fits.ids;
          words = (small, fits.words.1, fits.words.2, fits.words.3);
          indirs = fits.indirs;
          directs = fits.directs;
          six = fits.six;
          pads = fits.pads;
          three = fits.three;
        })
        (bind_done (translate path) _ found
          ∙ bind_done (inode_at inum) _ (inode_at_lem s inum held))
