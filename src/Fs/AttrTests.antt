-- ===== src/Fs/AttrTests.antt =====
-- The theorems about mounting and attributes at an image that holds all of its metadata.
use cs.Common.{
  ◌+◌, ◌/◌, ℕ, zero, suc, ◌+◌, ◌<◌, ◌≡◌, refl, sym, true, ◌==◌, if◌then◌else◌, none, List, [], ◌∷◌,
  ◌++◌, take, drop, set, replicate, length-replicate, arith,
}
use cs.Device.{blocks_from, image_read}
use cs.Fs.Layout.{
  Inode, blank_inode, decode_super, encode_dir, decode_dir, decode_dirent, encode_dirent,
  encode_inodes,
}
use cs.Fs.Layout.Codec.{le32, read32, encode_array, decode_array}
use cs.Fs.Layout.RoundTrip.{InodeFits, IsWord}
use cs.Fs.Monad.{State, done, read_or_exit, inode_at, elem_at}
use cs.Fs.Dir.{cstr, str_eq, entry_is, find_in_dir}
use cs.Fs.Path.{strtok_all, push_token, tokens_from, parse, parse_loop, parse_token}
use cs.Fs.Translate.{is_dir, lookup, path_names, enter, walk, translate}
use cs.Fs.Attr.{fs_init, fs_chmod, fs_getattr}
use cs.Fs.Attr.Mount.{Synced, region_block}
use cs.Fs.Attr.Store.{fs_getattr_lem, fs_chmod-fs_init}
use cs.Fs.Sample.{root_dir, file_a, root_entries, path_a, fits_words, fits_file, All-replicate}

-- One block for each map and for the inodes, 16 blocks in all, and inode 1 as the root.
abbrev super_block : List ℕ
super_block = le32 0 ++ (le32 1 ++ (le32 1 ++ (le32 1 ++ (le32 16 ++ le32 1))))

abbrev region : List Inode
region = blank_inode ∷ root_dir ∷ file_a ∷ replicate 13 blank_inode

abbrev used_inodes : List ℕ
used_inodes = 7 ∷ replicate 1023 0

abbrev used_blocks : List ℕ
used_blocks = 255 ∷ replicate 1023 0

abbrev image_content : ℕ → List ℕ
image_content b =
    if b == 0
    then super_block
    else if b == 1
    then used_inodes
    else if b == 2
    then used_blocks
    else if b == 3
    then encode_inodes region
    else if b == 4
    then encode_dir root_entries
    else []

abbrev image : State
image = record {
  disk = record {
    fd_open = true;
    nblks = 16;
    content = image_content;
    transfers = true;
    warnings = 0;
  };
  inode_map = used_inodes;
  inode_map_base = 1;
  inodes = region;
  n_inodes = 1;
  inode_base = 3;
  block_map = used_blocks;
  block_map_base = 2;
  n_blocks = 16;
  root_inode = 1;
  dirty = replicate 4 none;
}

fits_root : InodeFits root_dir
unfolding replicate
fits_root = record {
  ids = (omega arith, omega arith);
  words = (omega arith, omega arith, omega arith, omega arith);
  indirs = (omega arith, omega arith);
  directs = (omega arith, All-replicate IsWord 5 (omega arith));
  six = refl;
  pads = All-replicate IsWord 3 (omega arith);
  three = refl;
}

image_region : region_block region 0 ≡ encode_inodes region
unfolding region_block take drop replicate
image_region = refl

image-Synced : Synced image
unfolding decode_super read32 le32 drop replicate
image-Synced = record {
  ready = record { available = refl; complete = refl; small = omega arith };
  room = omega arith;
  bases = (refl, refl, refl);
  root = refl;
  region_size = refl;
  blocks = refl;
  map_sizes = (refl, refl);
  inode_map = refl;
  block_map = refl;
  map_length = omega (arith, length-replicate {A = ℕ} 1023 0);
  count = refl;
  fits = (fits_words, (fits_root, (fits_file, All-replicate InodeFits 13 fits_words)));
  region = only_block;
  clean = refl;
}
  where
    only_block : (i : ℕ) → i < 1 → image_content (3 + i) ≡ region_block region i
    only_block zero less = sym image_region
    only_block (suc i) less = absurd (omega arith)

found : translate path_a image ≡ done 2 image
unfolding translate path_names strtok_all push_token tokens_from parse parse_loop parse_token str_eq
    walk enter lookup inode_at elem_at read_or_exit image_read blocks_from is_dir find_in_dir
    entry_is cstr decode_dir encode_dir decode_dirent encode_dirent decode_array encode_array read32
    le32 take drop replicate
found = refl

abbrev empty_memory : ℕ → List ℕ
empty_memory n = replicate n 0

fs_getattr_lem_example :
    fs_getattr empty_memory path_a image
    ≡ done
        (record {
          st_uid = file_a.uid;
          st_gid = file_a.gid;
          st_mode = file_a.mode;
          st_atime = file_a.mtime;
          st_ctime = file_a.ctime;
          st_mtime = file_a.mtime;
          st_size = file_a.size;
          st_blksize = 1024;
          st_nlink = 1;
          st_blocks = (file_a.size + 1023) / 1024;
        })
        image
unfolding replicate
fs_getattr_lem_example =
    fs_getattr_lem empty_memory image path_a image-Synced refl found refl (omega arith)

fs_chmod-fs_init_example :
    (t : State) × (fs_chmod path_a 0o600 image ≡ done tt t)
    × (fs_init empty_memory t ≡ done tt t)
    × (t.inodes ≡ set region 2 (record file_a { mode = 0o100600 }))
unfolding replicate is_dir
fs_chmod-fs_init_example =
    fs_chmod-fs_init empty_memory image path_a image-Synced refl found refl 0o600 (omega arith)
