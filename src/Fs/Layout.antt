-- ===== src/Fs/Layout.antt =====
-- pmeunier-project/fsx492.h: the on-disk structures, and the bytes that the compiler gives them on
-- a little-endian machine with bit-fields from the lowest bit up. A structure read from the disk
-- is decoded from the block's bytes, and one written to it is encoded.
pub mod Codec
pub mod RoundTrip
use cs.Common.{
  ℕ, ◌+◌, ◌*◌, ◌/◌, ◌%◌, ◌<◌, ◌^◌, ◌≡◌, Bool, true, false, List, [], ◌∷◌, ◌++◌, ◌==◌, if◌then◌else◌,
  length, get_or, take, drop, replicate,
}
use Codec.{le16, le32, read16, read32, encode_array, decode_array}

-- `FS_FILENAME_SIZE`, `N_DIRECT`, `DIRENTS_PER_BLK`, `INODES_PER_BLK`, `PTRS_PER_BLK`.
abbrev pub filename_size : ℕ
filename_size = 28

abbrev pub n_direct : ℕ
n_direct = 6

abbrev pub dirents_per_blk : ℕ
dirents_per_blk = 32

abbrev pub inodes_per_blk : ℕ
inodes_per_blk = 16

abbrev pub ptrs_per_blk : ℕ
ptrs_per_blk = 256

-- `struct fs_dirent`: two flag bits and a 30-bit inode number in one word, then the name.
pub record Dirent : Type 0 where
  pub valid : Bool
  pub unused : Bool
  pub inode : ℕ
  pub name : List ℕ

abbrev flag : Bool → ℕ
flag b = if b then 1 else 0

unfoldable pub encode_dirent : Dirent → List ℕ
encode_dirent d = le32 (flag d.valid + 2 * flag d.unused + 4 * d.inode) ++ d.name

unfoldable pub decode_dirent : List ℕ → Dirent
decode_dirent bytes =
    let word = read32 bytes in
    record {
      valid = word % 2 == 1;
      unused = word / 2 % 2 == 1;
      inode = word / 4;
      name = take filename_size (drop 4 bytes);
    }

-- `memset(&entry, 0, sizeof(struct fs_dirent))`
abbrev pub blank_dirent : Dirent
blank_dirent = record { valid = false; unused = false; inode = 0; name = replicate filename_size 0 }

-- `struct fs_super`, without its padding.
pub record Super : Type 0 where
  pub magic : ℕ
  pub inode_map_sz : ℕ
  pub inode_region_sz : ℕ
  pub block_map_sz : ℕ
  pub num_blocks : ℕ
  pub root_inode : ℕ

unfoldable pub decode_super : List ℕ → Super
decode_super bytes = record {
  magic = read32 bytes;
  inode_map_sz = read32 (drop 4 bytes);
  inode_region_sz = read32 (drop 8 bytes);
  block_map_sz = read32 (drop 12 bytes);
  num_blocks = read32 (drop 16 bytes);
  root_inode = read32 (drop 20 bytes);
}

-- `struct fs_inode`. `size` is the bit pattern of the int32_t.
pub record Inode : Type 0 where
  pub uid : ℕ
  pub gid : ℕ
  pub mode : ℕ
  pub ctime : ℕ
  pub mtime : ℕ
  pub size : ℕ
  pub direct : List ℕ
  pub indir_1 : ℕ
  pub indir_2 : ℕ
  pub pad : List ℕ

unfoldable pub encode_inode : Inode → List ℕ
encode_inode i =
    le16 i.uid
    ++ (le16 i.gid
        ++ (le32 i.mode
            ++ (le32 i.ctime
                ++ (le32 i.mtime
                    ++ (le32 i.size
                        ++ (encode_array le32 i.direct
                            ++ (le32 i.indir_1 ++ (le32 i.indir_2 ++ encode_array le32 i.pad))))))))

unfoldable pub decode_inode : List ℕ → Inode
decode_inode bytes =
    let at_gid = drop 2 bytes in
    let at_mode = drop 2 at_gid in
    let at_ctime = drop 4 at_mode in
    let at_mtime = drop 4 at_ctime in
    let at_size = drop 4 at_mtime in
    let at_direct = drop 4 at_size in
    let at_indir_1 = drop (n_direct * 4) at_direct in
    let at_indir_2 = drop 4 at_indir_1 in
    let at_pad = drop 4 at_indir_2 in
    record {
      uid = read16 bytes;
      gid = read16 at_gid;
      mode = read32 at_mode;
      ctime = read32 at_ctime;
      mtime = read32 at_mtime;
      size = read32 at_size;
      direct = decode_array read32 4 n_direct at_direct;
      indir_1 = read32 at_indir_1;
      indir_2 = read32 at_indir_2;
      pad = decode_array read32 4 3 at_pad;
    }

-- `memset(inode, 0, sizeof(struct fs_inode))`
abbrev pub blank_inode : Inode
blank_inode = record {
  uid = 0;
  gid = 0;
  mode = 0;
  ctime = 0;
  mtime = 0;
  size = 0;
  direct = replicate n_direct 0;
  indir_1 = 0;
  indir_2 = 0;
  pad = replicate 3 0;
}

-- A block read as `struct fs_dirent[32]`, as `uint32_t[256]`, and a region as inodes.
unfoldable pub decode_dir : List ℕ → List Dirent
decode_dir = decode_array decode_dirent 32 dirents_per_blk

unfoldable pub encode_dir : List Dirent → List ℕ
encode_dir = encode_array encode_dirent

unfoldable pub decode_ptrs : List ℕ → List ℕ
decode_ptrs = decode_array read32 4 ptrs_per_blk

unfoldable pub encode_ptrs : List ℕ → List ℕ
encode_ptrs = encode_array le32

unfoldable pub decode_inodes : ℕ → List ℕ → List Inode
decode_inodes n = decode_array decode_inode 64 (n * inodes_per_blk)

unfoldable pub encode_inodes : List Inode → List ℕ
encode_inodes = encode_array encode_inode
