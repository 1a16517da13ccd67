-- ===== src/Fs/Attr/Mount.antt =====
-- Mounting in pmeunier-project/fs.c: fs_init on an image that holds the metadata that is in memory.
use cs.Common.{
  ℕ, zero, suc, subst, ◌+◌, ◌*◌, ◌≤◌, ◌<◌, ◌≡◌, refl, sym, ap, ◌∙◌, none, List, [], ◌∷◌, ◌++◌,
  length, take, drop, replicate, arith, take-append-drop, drop-drop, append_assoc, drop_all,
  append-nil, Option,
}
use cs.Device.{Device, block_size, blocks_from, image_read}
use cs.Device.Laws.{IsReady}
use cs.Fs.Layout.{Inode, decode_super, encode_inodes, decode_inodes, inodes_per_blk, encode_inode}
use cs.Fs.Layout.Codec.{All, encode_array}
use cs.Fs.Layout.RoundTrip.{InodeFits, decode-encode_inodes}
use cs.Fs.Monad.{State, done, read_or_exit}
use cs.Fs.Monad.Laws.{bind_done}
use cs.Fs.Directory.{read_lem}
use cs.Fs.Attr.{fs_init, map_buffer}

-- The i-th block of the inode region, as update_inode writes it.
unfoldable pub region_block : List Inode → ℕ → List ℕ
region_block inodes i = encode_inodes (take inodes_per_blk (drop (i * inodes_per_blk) inodes))

-- A mounted file system whose device holds all of its metadata: the superblock says what the variables
-- do, with one block for each map, and the maps and the inodes are those in memory.
pub record Synced (s : State) : Type 0 where
  pub ready : IsReady s.disk
  pub room : 3 + s.n_inodes ≤ s.disk.nblks
  pub bases : (s.inode_map_base ≡ 1) × (s.block_map_base ≡ 2) × (s.inode_base ≡ 3)
  pub root : (decode_super (s.disk.content 0)).root_inode ≡ s.root_inode
  pub region_size : (decode_super (s.disk.content 0)).inode_region_sz ≡ s.n_inodes
  pub blocks : (decode_super (s.disk.content 0)).num_blocks ≡ s.n_blocks
  pub map_sizes :
      ((decode_super (s.disk.content 0)).inode_map_sz ≡ 1)
      × ((decode_super (s.disk.content 0)).block_map_sz ≡ 1)
  pub inode_map : s.disk.content 1 ≡ s.inode_map
  pub block_map : s.disk.content 2 ≡ s.block_map
  pub map_length : length s.inode_map ≡ block_size
  pub count : length s.inodes ≡ s.n_inodes * inodes_per_blk
  pub fits : All InodeFits s.inodes
  pub region : (i : ℕ) → i < s.n_inodes → s.disk.content (3 + i) ≡ region_block s.inodes i
  pub clean : s.dirty ≡ replicate (3 + s.n_inodes) none

encode_array-append :
    {A : Type 0} (enc : A → List ℕ) (xs ys : List A)
    → encode_array enc (xs ++ ys) ≡ encode_array enc xs ++ encode_array enc ys
unfolding encode_array
encode_array-append enc [] ys = refl
encode_array-append enc (x ∷ xs) ys =
    ap (λ r. enc x ++ r) (encode_array-append enc xs ys)
    ∙ sym (append_assoc (enc x) (encode_array enc xs) (encode_array enc ys))

-- Reading the region gives the bytes of all inodes.
region_from :
    (content : ℕ → List ℕ) (inodes : List Inode) (i j b : ℕ)
    → ((k : ℕ) → k < i + j → content (3 + k) ≡ region_block inodes k)
    → 3 + i ≡ b
    → length inodes ≡ (i + j) * inodes_per_blk
    → blocks_from content b j ≡ encode_inodes (drop (i * inodes_per_blk) inodes)
unfolding blocks_from encode_inodes encode_array region_block
region_from content inodes i zero b all at count =
    ap (encode_array encode_inode) (sym (drop_all inodes (i * inodes_per_blk) (omega arith)))
region_from content inodes i (suc j) b all at count =
    let rest =
      region_from content inodes (i + 1) j (b + 1) (λ k h. all k (omega arith)) (omega arith)
        (omega arith) in
    let here : content b ≡ encode_inodes (take inodes_per_blk (drop (i * inodes_per_blk) inodes)) =
      ap content (sym at) ∙ all i (omega arith) in
    let next : drop ((i + 1) * inodes_per_blk) inodes
        ≡ drop inodes_per_blk (drop (i * inodes_per_blk) inodes) =
      sym (
        drop-drop inodes_per_blk (i * inodes_per_blk) ((i + 1) * inodes_per_blk) inodes
          (omega arith)) in
    ap (λ c. c ++ blocks_from content (b + 1) j) here
    ∙ ap (λ r. encode_inodes (take inodes_per_blk (drop (i * inodes_per_blk) inodes)) ++ r)
        (rest ∙ ap encode_inodes next)
    ∙ sym (
        encode_array-append encode_inode (take inodes_per_blk (drop (i * inodes_per_blk) inodes))
          (drop inodes_per_blk (drop (i * inodes_per_blk) inodes)))
    ∙ ap (encode_array encode_inode)
        (take-append-drop inodes_per_blk (drop (i * inodes_per_blk) inodes))

-- What fs_init leaves, from the device alone.
mounted : (ℕ → List ℕ) → Device → State
mounted fresh disk =
    let sb = decode_super (disk.content 0) in
    record {
      disk = disk;
      inode_map = disk.content 1 ++ fresh 0;
      inode_map_base = 1;
      inodes = decode_inodes sb.inode_region_sz (blocks_from disk.content 3 sb.inode_region_sz);
      n_inodes = sb.inode_region_sz;
      inode_base = 3;
      block_map = disk.content 2 ++ fresh 0;
      block_map_base = 2;
      n_blocks = sb.num_blocks;
      root_inode = sb.root_inode;
      dirty = replicate (3 + sb.inode_region_sz) none;
    }

-- One block as a map, and the region.
map_one :
    (fresh : ℕ → List ℕ) (sz : ℕ) (block : List ℕ) (t : State)
    → sz ≡ 1
    → map_buffer fresh sz block t ≡ done (block ++ fresh 0) t
map_one fresh sz block t e =
    let e' : 1 ≡ sz = sym e in
    subst (λ n. map_buffer fresh n block t ≡ done (block ++ fresh 0) t) e' refl

region_read :
    (t : State) (n : ℕ)
    → IsReady t.disk
    → 3 + n ≤ t.disk.nblks
    → read_or_exit 3 n t ≡ done (blocks_from t.disk.content 3 n) t
unfolding read_or_exit image_read
region_read t n ready room = ground (arith, ready.available, ready.complete)

fs_init-mounted :
    (fresh : ℕ → List ℕ) (s : State) → Synced s → fs_init fresh s ≡ done tt (mounted fresh s.disk)
unfolding fs_init mounted
fs_init-mounted fresh s h =
    let sb = decode_super (s.disk.content 0) in
    bind_done (read_or_exit 0 1) _ (read_lem s 0 h.ready (omega (arith, h.room)))
    ∙ bind_done (read_or_exit 1 1) _ (read_lem _ 1 h.ready (omega (arith, h.room)))
    ∙ bind_done (map_buffer fresh sb.inode_map_sz (s.disk.content 1)) _
        (map_one fresh sb.inode_map_sz (s.disk.content 1) _ h.map_sizes.0)
    ∙ bind_done (read_or_exit 2 1) _ (read_lem _ 2 h.ready (omega (arith, h.room)))
    ∙ bind_done (map_buffer fresh sb.block_map_sz (s.disk.content 2)) _
        (map_one fresh sb.block_map_sz (s.disk.content 2) _ h.map_sizes.1)
    ∙ bind_done (read_or_exit 3 sb.inode_region_sz) _
        (region_read _ sb.inode_region_sz h.ready (omega (arith, h.room, h.region_size)))

-- The inodes that are read are those in memory.
region_lem :
    (s : State)
    → Synced s
    → decode_inodes s.n_inodes (blocks_from s.disk.content 3 s.n_inodes) ≡ s.inodes
unfolding drop
region_lem s h =
    ap (decode_inodes s.n_inodes) (
      region_from s.disk.content s.inodes 0 s.n_inodes 3 (λ k less. h.region k (omega arith)) refl
        (omega (arith, h.count)))
    ∙ (decode-encode_inodes s.n_inodes s.inodes h.fits h.count).0

mounted_lem : (fresh : ℕ → List ℕ) (s : State) → Synced s → fresh 0 ≡ [] → mounted fresh s.disk ≡ s
unfolding mounted
mounted_lem fresh s h none_left =
    let imap : s.disk.content 1 ++ fresh 0 ≡ s.inode_map =
      ap (λ r. s.disk.content 1 ++ r) none_left ∙ append-nil (s.disk.content 1) ∙ h.inode_map in
    let bmap : s.disk.content 2 ++ fresh 0 ≡ s.block_map =
      ap (λ r. s.disk.content 2 ++ r) none_left ∙ append-nil (s.disk.content 2) ∙ h.block_map in
    let sz = h.region_size in
    let inodes = ap (λ n. decode_inodes n (blocks_from s.disk.content 3 n)) sz ∙ region_lem s h in
    let dirty = ap (λ n. replicate {A = Option (List ℕ)} (3 + n) none) sz ∙ sym h.clean in
    let base1 = sym h.bases.0 in
    let base2 = sym h.bases.1 in
    let base3 = sym h.bases.2 in
    λ i. record {
      disk = s.disk;
      inode_map = imap i;
      inode_map_base = base1 i;
      inodes = inodes i;
      n_inodes = sz i;
      inode_base = base3 i;
      block_map = bmap i;
      block_map_base = base2 i;
      n_blocks = h.blocks i;
      root_inode = h.root i;
      dirty = dirty i;
    }

-- Mounting a file system whose metadata is on the device changes nothing, if new memory of no bytes holds
-- none.
pub fs_init-Synced :
    (fresh : ℕ → List ℕ) (s : State) → Synced s → fresh 0 ≡ [] → fs_init fresh s ≡ done tt s
fs_init-Synced fresh s h e = fs_init-mounted fresh s h ∙ ap (done tt) (mounted_lem fresh s h e)
