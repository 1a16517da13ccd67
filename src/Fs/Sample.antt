-- ===== src/Fs/Sample.antt =====
-- A small image for the tests of pmeunier-project/fs.c: 16 blocks, a root directory in block 4, and
-- one file with data in blocks 5 and 6, behind an indirect block 7 and behind block 8's table 9.
use cs.Common.{
  ℕ, zero, suc, ◌<◌, ◌≡◌, ◌≢◌, refl, Bool, true, false, ◌&&◌, none, List, [], ◌∷◌, ltb, ◌==◌,
  if◌then◌else◌, replicate, arith,
}
use cs.Common.{take, drop}
use cs.Device.{blocks_from, image_read}
use cs.Fs.Layout.{decode_dir, decode_dirent, encode_dirent}
use cs.Fs.Layout.Codec.{le32, read32, encode_array, decode_array}
use cs.Fs.Monad.{done, read_or_exit, inode_at, elem_at}
use cs.Fs.Dir.{cstr, str_eq, entry_is, find_in_dir}
use cs.Fs.Path.{strtok_all, push_token, tokens_from, parse, parse_loop, parse_token}
use cs.Fs.Translate.{is_dir, lookup, path_names, enter, walk, translate}
use cs.Device.{Device}
use cs.Fs.Layout.{Dirent, Inode, blank_dirent, blank_inode, encode_dir, encode_ptrs}
use cs.Fs.Layout.Codec.{All}
use cs.Fs.Layout.RoundTrip.{DirentFits, IsWord, InodeFits}
use cs.Fs.Monad.{State}
use cs.Fs.Directory.{IsDirectory}
use cs.Fs.Sound.{IsSound}
use cs.Fs.Dir.Laws.{NoZero}

abbrev pub entry_a : Dirent
entry_a = record { valid = true; unused = false; inode = 2; name = b'a' ∷ replicate 27 0 }

abbrev pub root_entries : List Dirent
root_entries = entry_a ∷ replicate 31 blank_dirent

abbrev pub root_dir : Inode
root_dir = record blank_inode { mode = 0o40755; direct = 4 ∷ replicate 5 0 }

abbrev pub file_a : Inode
file_a = record blank_inode {
  mode = 0o100644;
  size = 2000;
  direct = 5 ∷ 6 ∷ replicate 4 0;
  indir_1 = 7;
  indir_2 = 8;
}

abbrev pub sample_content : ℕ → List ℕ
sample_content b =
    if b == 4
    then encode_dir root_entries
    else if b == 7
    then encode_ptrs (11 ∷ replicate 255 0)
    else if b == 8
    then encode_ptrs (9 ∷ replicate 255 0)
    else if b == 9
    then encode_ptrs (10 ∷ replicate 255 0)
    else replicate 1024 0

abbrev pub sample_disk : Device
sample_disk = record {
  fd_open = true;
  nblks = 16;
  content = sample_content;
  transfers = true;
  warnings = 0;
}

abbrev pub sample : State
sample = record {
  disk = sample_disk;
  inode_map = 7 ∷ 0 ∷ [];
  inode_map_base = 1;
  inodes = blank_inode ∷ root_dir ∷ file_a ∷ replicate 13 blank_inode;
  n_inodes = 16;
  inode_base = 3;
  block_map = 255 ∷ 15 ∷ [];
  block_map_base = 2;
  n_blocks = 16;
  root_inode = 1;
  dirty = replicate 16 none;
}

pub sample-IsSound : IsSound sample
unfolding replicate
sample-IsSound = record {
  ready = record { available = refl; complete = refl; small = omega arith };
  block_bits = omega arith;
  block_room = omega arith;
  inode_bits = omega arith;
  inode_numbers = omega arith;
  inode_room = omega arith;
  map_base = refl;
  blocks_base = refl;
  region_base = refl;
  region_room = omega arith;
}

-- Checkers for predicates on long lists.
unfoldable pub below : ℕ → List ℕ → Bool
below n [] = true
below n (x ∷ xs) = ltb x n && below n xs

pub below_lem : (n : ℕ) (xs : List ℕ) → below n xs ≡ true → All (λ b. b < n) xs
unfolding below
below_lem n [] e = tt
below_lem n (x ∷ xs) e = ground (arith, below_lem n xs)

pub All-replicate : {A : Type 0} (P : A → Type 0) (n : ℕ) {x : A} → P x → All P (replicate n x)
unfolding replicate
All-replicate P zero h = tt
All-replicate P (suc n) h = (h, All-replicate P n h)

pub root_entries-fit : All DirentFits root_entries
unfolding replicate
root_entries-fit = (
  record { inode_fits = omega arith; name_fills = refl },
  All-replicate DirentFits 31 (record { inode_fits = omega arith; name_fills = refl }),
)

pub root_entries-NoZero : NoZero root_entries
root_entries-NoZero =
    (λ v. omega arith, All-replicate (λ d. d.valid ≡ true → d.inode ≢ 0) 31 (λ v. absurd cc))

abbrev pub path_a : List ℕ
path_a = b'/' ∷ b'a' ∷ []

pub found_a : translate path_a sample ≡ done 2 sample
unfolding translate path_names strtok_all push_token tokens_from parse parse_loop parse_token str_eq
    walk enter lookup inode_at elem_at read_or_exit image_read blocks_from is_dir find_in_dir
    entry_is cstr decode_dir encode_dir decode_dirent encode_dirent decode_array encode_array read32
    le32 take drop replicate
found_a = refl

pub fits_words : InodeFits blank_inode
unfolding replicate
fits_words = record {
  ids = (omega arith, omega arith);
  words = (omega arith, omega arith, omega arith, omega arith);
  indirs = (omega arith, omega arith);
  directs = All-replicate IsWord 6 (omega arith);
  six = refl;
  pads = All-replicate IsWord 3 (omega arith);
  three = refl;
}

pub fits_file : InodeFits file_a
unfolding replicate
fits_file = record {
  ids = (omega arith, omega arith);
  words = (omega arith, omega arith, omega arith, omega arith);
  indirs = (omega arith, omega arith);
  directs = (omega arith, (omega arith, All-replicate IsWord 4 (omega arith)));
  six = refl;
  pads = All-replicate IsWord 3 (omega arith);
  three = refl;
}

pub root-IsDirectory : IsDirectory sample 1 4 root_dir
unfolding is_dir replicate
root-IsDirectory = record {
  held = refl;
  typed = refl;
  first = refl;
  is_data = omega arith;
  inside = omega arith;
}
