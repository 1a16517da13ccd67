-- ===== src/Fs/Tests.antt =====
-- The theorems about pmeunier-project/fs.c at the sample image.
use cs.Common.{
  set, ℕ, ◌≡◌, refl, ◌≢◌, true, false, List, [], ◌∷◌, some, none, take, drop, replicate, arith,
  fd_isset, get_elem?,
}
use cs.Device.{blocks_from, image_read, image_write}
use cs.Fs.Layout.{encode_dir, decode_dir, encode_ptrs, decode_ptrs, encode_dirent, decode_dirent}
use cs.Fs.Layout.Codec.{le32, read32, encode_array, decode_array}
use cs.Fs.Layout.RoundTrip.{decode-encode_dir}
use cs.Fs.Monad.{State, done, fail, enoent, read_or_exit, inode_at, elem_at}
use cs.Fs.Dir.{Name, cstr, str_eq, entry_is, find_in_dir}
use cs.Common.{set, sym, ap, ◌∙◌}
use cs.Fs.Dir.Laws.{str_eq_refl, IsName}
use cs.Fs.Path.{strtok_all, push_token, tokens_from, parse, parse_loop, parse_token}
use cs.Fs.Translate.{is_dir, lookup, path_names, enter, walk, split_last, translate, translate_1}
use cs.Fs.Layout.{Inode, blank_inode}
use cs.Fs.Alloc.{get_free_inode, first_clear, mark_inode}
use cs.Fs.Dir.{find_free_dir}
use cs.Common.{set, fd_set, bit, set_bit}
use cs.Fs.Create.{Caller, fs_mknod, fs_mkdir}
use cs.Fs.Create.Attributes.{HasRoom}
use cs.Fs.Create.Laws.{mknod-lookup, mkdir-superblock}
use cs.Fs.Rename.{fs_rename}
use cs.Fs.Rename.Laws.{rename-lookup}
use cs.Fs.Sample.{root-IsDirectory, root_entries-fit, root_entries-NoZero, below, below_lem}
use cs.Common.{set, if◌then◌else◌, ◌⊎◌, suc}
use cs.Fs.Monad.{enospc, write_or_exit}
use cs.Fs.Dir.{is_empty_dir}
use cs.Fs.Remove.{fs_truncate}
use cs.Fs.Remove.Freed.{clear_all, points_to, behind, pointers_at}
use cs.Fs.Remove.Truncated.{owned, InRange, emptied, truncate-frees}
use cs.Fs.Sample.{file_a}
use cs.Fs.Alloc.{get_free_blk, mark_block, num_free_blk}
use cs.Fs.Alloc.Laws.{AllSet, IsFirst, taken_block, get_free_blk_lem}
use cs.Fs.Path.Normal.{normal, has_short_names}
use cs.Fs.Translate.Laws.{translate-translate_1}
use cs.Fs.Translate.{is_reg}
use cs.Fs.Translate.Laws.{path_names-normal}
use cs.Fs.Directory.{IsTidy, entries_at}
use cs.Fs.Sample.{path_a, found_a}
use cs.Fs.Sample.{sample, sample-IsSound, root_entries}

abbrev path_b : List ℕ
path_b = b'/' ∷ b'.' ∷ b'/' ∷ b'b' ∷ []

abbrev name_a : Name
name_a = b'a' ∷ []

abbrev name_b : Name
name_b = b'b' ∷ []

abbrev name_c : Name
name_c = b'c' ∷ []

differ : (x y : Name) → str_eq x y ≡ false → x ≢ y
differ x y unequal e =
    let clash : true ≡ false = sym (str_eq_refl x) ∙ ap (str_eq x) e ∙ unequal in cc

above_a : translate_1 path_a sample ≡ done (1, some name_a) sample
unfolding translate_1 path_names strtok_all push_token tokens_from parse parse_loop parse_token
    str_eq walk split_last replicate
above_a = refl

above_b : translate_1 path_b sample ≡ done (1, some name_b) sample
unfolding translate_1 path_names strtok_all push_token tokens_from parse parse_loop parse_token
    str_eq walk split_last replicate
above_b = refl

missing_b : translate path_b sample ≡ fail enoent sample
unfolding translate path_names strtok_all push_token tokens_from parse parse_loop parse_token str_eq
    walk enter lookup inode_at elem_at read_or_exit image_read blocks_from is_dir find_in_dir
    entry_is cstr decode_dir encode_dir decode_dirent encode_dirent decode_array encode_array read32
    le32 take drop replicate
missing_b = refl

name_b-IsName : IsName name_b
name_b-IsName = record { no_nul = (omega arith, tt); fits = omega arith }

entries : entries_at sample 4 ≡ root_entries
unfolding replicate
entries = (decode-encode_dir root_entries root_entries-fit refl).0

tidy : IsTidy (entries_at sample 4)
tidy = rw entries (record { fits = root_entries-fit; no_zero = root_entries-NoZero })

room_b : HasRoom sample (entries_at sample 4) 1 3 blank_inode
unfolding get_free_inode first_clear mark_inode replicate find_free_dir fd_isset fd_set bit set_bit
room_b = rw entries (record { entry = refl; inode = refl; inside = omega arith; held = refl })

abbrev someone : Caller
someone = record { uid = 1000; gid = 100; now = 1700000000 }

mknod-lookup_example :
    (t : State) × (fs_mknod someone path_b 0o644 sample ≡ done tt t)
    × (lookup 1 name_b t ≡ done 3 t)
    × (get_elem? t.inodes 3
        ≡ some (record blank_inode {
          uid = 1000;
          gid = 100;
          mode = 0o100644;
          ctime = 1700000000;
          mtime = 1700000000;
          size = 0;
          direct = set blank_inode.direct 0 0;
        }))
    × (find_in_dir (entries_at t 4) name_a ≡ find_in_dir (entries_at sample 4) name_a)
unfolding is_reg str_eq
mknod-lookup_example =
    mknod-lookup someone sample path_b sample-IsSound missing_b above_b root-IsDirectory tidy room_b
      (λ e. omega (arith, e)) 0o644 name_a (differ name_b name_a refl) name_b-IsName refl refl

mkdir-superblock_example :
    (t : State) × (new : Inode) × (fs_mkdir someone path_b 0o755 sample ≡ done tt t)
    × (lookup 1 name_b t ≡ done 3 t)
    × (get_elem? t.inodes 3 ≡ some new)
    × (is_dir new.mode ≡ true)
    × (get_elem? new.direct 0 ≡ some 0)
unfolding is_dir str_eq replicate
mkdir-superblock_example =
    mkdir-superblock someone sample path_b sample-IsSound missing_b above_b root-IsDirectory tidy
      room_b (λ e. omega (arith, e)) 0o755 name_b-IsName refl refl (omega arith)

rename-lookup_example :
    (t : State) × (fs_rename path_a path_b sample ≡ done tt t)
    × (lookup 1 name_b t ≡ done 2 t)
    × (lookup 1 name_a t ≡ fail enoent t)
    × (find_in_dir (entries_at t 4) name_c ≡ find_in_dir (entries_at sample 4) name_c)
    × (t.inodes ≡ sample.inodes)
unfolding str_eq
rename-lookup_example =
    rename-lookup sample path_a path_b sample-IsSound found_a missing_b above_a above_b
      root-IsDirectory tidy name_b-IsName name_c (differ name_a name_c refl)
      (differ name_b name_c refl)

-- "/." is the root directory, which lists a file.
abbrev path_dot : List ℕ
path_dot = b'/' ∷ b'.' ∷ []

found_dot : translate path_dot sample ≡ done 1 sample
unfolding translate path_names strtok_all push_token tokens_from parse parse_loop parse_token str_eq
    walk replicate
found_dot = refl

above_dot : translate_1 path_dot sample ≡ done (1, none) sample
unfolding translate_1 path_names strtok_all push_token tokens_from parse parse_loop parse_token
    str_eq walk split_last replicate
above_dot = refl

full_root : is_empty_dir (entries_at sample 4) ≡ false
unfolding is_empty_dir
full_root = rw entries refl

file_a-InRange : InRange sample file_a
unfolding owned clear_all behind below decode_ptrs encode_ptrs decode_array encode_array read32 le32
    take drop replicate
file_a-InRange = record {
  in_map = below_lem 16 (owned sample file_a) refl;
  first_level = omega arith;
  second_level = omega arith;
  tables = below_lem 16 (pointers_at sample 8) refl;
}

truncate-frees_example :
    (t : State) × (fs_truncate path_a 0 sample ≡ done tt t)
    × ((j : ℕ)
        → fd_isset j t.block_map
          ≡ (if points_to j (owned sample file_a) then false else fd_isset j sample.block_map))
    × (get_elem? t.inodes 2 ≡ some (emptied file_a))
unfolding is_dir replicate
truncate-frees_example =
    truncate-frees sample path_a sample-IsSound found_a refl (omega arith) refl file_a-InRange

-- Block 9, the table behind block 8, is no block that truncation frees, though the file uses it.
table_kept : points_to 9 (owned sample file_a) ≡ false
unfolding points_to owned behind decode_ptrs encode_ptrs decode_array encode_array read32 le32 take
    drop replicate
table_kept = refl

get_free_blk_lem_example :
    ((get_free_blk sample ≡ fail enospc sample) × AllSet 0 16 sample.block_map)
    ⊎ ((k : ℕ) × (get_free_blk sample ≡ done k (taken_block k sample))
        × IsFirst 0 16 sample.block_map k
        × (num_free_blk sample ≡ suc (num_free_blk (taken_block k sample))))
get_free_blk_lem_example = get_free_blk_lem sample sample-IsSound

took_12 : get_free_blk sample ≡ done 12 (taken_block 12 sample)
unfolding get_free_blk first_clear mark_block fd_isset bit write_or_exit image_write
took_12 = refl

path_names-normal_example :
    path_names path_b ≡ (if has_short_names path_b then some (normal path_b) else none)
path_names-normal_example = path_names-normal path_b

translate-translate_1_example : translate path_a sample ≡ enter 1 name_a sample
translate-translate_1_example = translate-translate_1 path_a sample above_a
