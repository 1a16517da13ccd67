-- ===== src/Fs/Read/Laws.antt =====
-- What fs_read of pmeunier-project/fs.c copies from a file's direct blocks.
use cs.Common.{
  ℕ, zero, suc, ◌+◌, ◌-◌, ◌*◌, ◌/◌, ◌%◌, ◌^◌, ◌≤◌, ◌<◌, ◌≡◌, ◌≢◌, refl, sym, ap, ◌∙◌, false, List,
  [], ◌∷◌, ◌++◌, some, arith, length, take, drop, get_elem?, dec_lt, append-nil, take-append_over,
  take-append_le, take_all,
}
use cs.Device.{block_size}
use cs.Device.Laws.{IsReady}
use cs.Fs.Layout.{Inode}
use cs.Fs.Layout.Codec.{All}
use cs.Fs.Monad.{State, Outcome, inode_at, done, halt, undefined_access}
use cs.Fs.Monad.Laws.{bind_done}
use cs.Fs.Directory.{read_lem, inode_at_lem}
use cs.Fs.Translate.{is_dir, translate}
use cs.Fs.Read.{
  dir_size, sub_size, fs_read_blk, read_blocks, fs_read_dir, fs_read, read_parts, read_part,
}

-- A block that holds data: not block 0, inside the device, and whole.
pub record HoldsData (s : State) (p : ℕ) : Type 0 where
  pub real : p ≢ 0
  pub inside : p < s.disk.nblks
  pub whole : length (s.disk.content p) ≡ block_size

-- The bytes of the blocks of a list, one after the other.
unfoldable pub contents : (ℕ → List ℕ) → List ℕ → List ℕ
contents content [] = []
contents content (p ∷ ps) = content p ++ contents content ps

-- A copy from the start of a block.
pub read_start :
    (s : State) (p room len : ℕ)
    → IsReady s.disk
    → HoldsData s p
    → len ≤ block_size
    → len ≤ room
    → fs_read_blk p room len 0 s ≡ done (take len (s.disk.content p)) s
unfolding fs_read_blk drop
read_start s p room len ready h small fits = ground (arith, read_lem s p ready h.inside)

whole_then :
    (xs ys : List ℕ) (n : ℕ)
    → length xs ≡ block_size
    → block_size ≤ n
    → take block_size xs ++ take (n - block_size) ys ≡ take n (xs ++ ys)
whole_then xs ys n sized h =
    ap (λ t. t ++ take (n - block_size) ys) (take_all xs block_size sized)
    ∙ sym (take-append_over xs ys n (n - block_size) (omega arith))

read_none : (ps : List ℕ) (room : ℕ) (s : State) → read_blocks ps room 0 0 s ≡ done (0, []) s
unfolding read_blocks
read_none [] room s = refl
read_none (p ∷ ps) room s = refl

-- A round that reads a whole block, and the last round.
read_more :
    (s : State) (p n : ℕ) (ps bytes : List ℕ)
    → IsReady s.disk
    → HoldsData s p
    → block_size < n
    → read_blocks ps (n - block_size) (n - block_size) 0 s ≡ done (0, bytes) s
    → read_blocks (p ∷ ps) n n 0 s ≡ done (0, take block_size (s.disk.content p) ++ bytes) s
unfolding read_blocks sub_size
read_more s p n ps bytes ready h more rest =
    ground (arith, read_start s p n block_size ready h, h.real)

read_last :
    (s : State) (p n : ℕ) (ps : List ℕ)
    → IsReady s.disk
    → HoldsData s p
    → 0 < n
    → n ≤ block_size
    → read_blocks (p ∷ ps) n n 0 s ≡ done (0, take n (s.disk.content p)) s
unfolding read_blocks sub_size
read_last s p n ps ready h pos small =
    let z : n - n ≡ 0 = omega arith in
    ground (
      arith,
      read_start s p n n ready h,
      h.real,
      z,
      read_none ps 0 s,
      append-nil (take n (s.disk.content p)),
    )

-- A read from the start of a block gives the first bytes of the blocks, if they hold that many.
pub read_blocks_lem :
    (s : State) (used rest : List ℕ) (n : ℕ)
    → IsReady s.disk
    → All (HoldsData s) used
    → n ≤ block_size * length used
    → read_blocks (used ++ rest) n n 0 s ≡ done (0, take n (contents s.disk.content used)) s
unfolding contents take
read_blocks_lem s [] rest n ready all room =
    let e : n ≡ 0 = omega arith in rw e (read_none rest 0 s)
read_blocks_lem s (p ∷ used) rest zero ready all room = read_none (p ∷ used ++ rest) 0 s
read_blocks_lem s (p ∷ used) rest (suc k) ready all room = elim (dec_lt block_size (suc k)) [
  | yes more ↦
      read_more s p (suc k) (used ++ rest) _ ready all.0 more
        (read_blocks_lem s used rest (suc k - block_size) ready all.1 (omega arith))
      ∙ ap (λ t. done (0, t) s)
          (whole_then (s.disk.content p) (contents s.disk.content used) (suc k) all.0.whole
            (omega arith))
  | no last ↦
      read_last s p (suc k) (used ++ rest) ready all.0 (omega arith) (omega arith)
      ∙ ap (λ t. done (0, t) s)
          (sym (
            take-append_le (suc k) (s.disk.content p) (contents s.disk.content used)
              (omega (arith, all.0.whole))))
]

-- A round that starts inside a block copies too much.
blocks_stop :
    (s : State) (p : ℕ) (ps : List ℕ) (n offset : ℕ)
    → IsReady s.disk
    → HoldsData s p
    → offset ≢ 0
    → offset < block_size
    → 0 < n
    → read_blocks (p ∷ ps) n n offset s ≡ halt undefined_access s
unfolding read_blocks fs_read_blk
blocks_stop s p ps n offset ready h unaligned small pos =
    ground (arith, read_lem s p ready h.inside, h.real)

-- The used pointers of an inode from one on.
pub record Direct (s : State) (v : Inode) (k : ℕ) (used : List ℕ) : Type 0 where
  pub rest : List ℕ
  pub split : drop k v.direct ≡ used ++ rest
  pub data_blocks : All (HoldsData s) used

pub direct_lem :
    (s : State) (inum : ℕ) {v : Inode} (offset len : ℕ) (used : List ℕ)
    → IsReady s.disk
    → get_elem? s.inodes inum ≡ some v
    → Direct s v (offset / block_size) used
    → offset % block_size ≡ 0
    → len ≤ block_size * length used
    → fs_read_dir inum len len offset s ≡ done (0, take len (contents s.disk.content used)) s
unfolding fs_read_dir
direct_lem s inum offset len used ready held d aligned room =
    bind_done (inode_at inum) _ (inode_at_lem s inum held)
    ∙ rw (aligned, d.split) (read_blocks_lem s used d.rest len ready d.data_blocks room)

module _ (s : State) (path : List ℕ) (ready : IsReady s.disk) {inum : ℕ} {v : Inode}
    (found : translate path s ≡ done inum s) (held : get_elem? s.inodes inum ≡ some v)
    (file : is_dir v.mode ≡ false) (sized : v.size < 2 ^ 31) where
  enter_file :
      (offset len : ℕ) (o : Outcome (ℕ × List ℕ))
      → offset + len ≤ v.size
      → read_parts inum v.indir_1 v.indir_2 len offset s ≡ o
      → fs_read path len offset s ≡ o
  unfolding fs_read
  enter_file offset len o inside e = ground (arith, found, file, inode_at_lem s inum held)

  -- On a device that answers, for a path that leads to a file with a size below 2^31: reading from
  -- the start of a block, inside the file and inside the direct blocks that hold data, returns the
  -- number of bytes asked for and copies these bytes of the blocks.
  pub fs_read_lem :
      (offset len : ℕ) (used : List ℕ)
      → Direct s v (offset / block_size) used
      → offset % block_size ≡ 0
      → offset + len ≤ v.size
      → offset < dir_size
      → len ≤ block_size * length used
      → fs_read path len offset s ≡ done (len, take len (contents s.disk.content used)) s
  unfolding read_parts read_part sub_size take
  fs_read_lem offset zero used d aligned inside below room = enter_file offset 0 _ inside refl
  fs_read_lem offset (suc k) used d aligned inside below room =
      enter_file offset (suc k) _ inside
        (ground (arith, direct_lem s inum offset (suc k) used ready held d aligned room))

  stops :
      (offset len p : ℕ) (ps : List ℕ)
      → drop (offset / block_size) v.direct ≡ p ∷ ps
      → HoldsData s p
      → offset % block_size ≢ 0
      → 0 < len
      → fs_read_dir inum len len offset s ≡ halt undefined_access s
  unfolding fs_read_dir
  stops offset len p ps at h unaligned pos =
      bind_done (inode_at inum) _ (inode_at_lem s inum held)
      ∙ rw at (blocks_stop s p ps len (offset % block_size) ready h unaligned (omega arith) pos)

  -- On a device that answers, for a path that leads to a file with a size below 2^31: a read that
  -- does not start at the start of a block, of at least one byte inside the file, from a direct
  -- block that holds data, copies past the end of that block or of the caller's buffer.
  pub fs_read_unaligned :
      (offset len p : ℕ) (ps : List ℕ)
      → drop (offset / block_size) v.direct ≡ p ∷ ps
      → HoldsData s p
      → offset % block_size ≢ 0
      → 0 < len
      → offset + len ≤ v.size
      → offset < dir_size
      → fs_read path len offset s ≡ halt undefined_access s
  unfolding read_parts read_part
  fs_read_unaligned offset len p ps at h unaligned pos inside below =
      enter_file offset len _ inside (ground (arith, stops offset len p ps at h unaligned pos))
