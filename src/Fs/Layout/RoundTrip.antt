-- ===== src/Fs/Layout/RoundTrip.antt =====
-- Every structure of fsx492.h whose values fit its fields is read back as it was written.
use cs.Common.{
  ℕ, ◌+◌, ◌*◌, ◌/◌, ◌%◌, ◌<◌, ◌^◌, ◌≡◌, refl, Bool, List, [], ◌++◌, arith, ◌==◌, length, drop,
  take-append, drop-append, append_assoc, length-append, append-nil,
}
use cs.Fs.Layout.{
  Dirent, Inode, encode_dirent, decode_dirent, encode_inode, decode_inode, encode_dir, decode_dir,
  encode_ptrs, decode_ptrs, encode_inodes, decode_inodes, inodes_per_blk, filename_size, n_direct,
  dirents_per_blk, ptrs_per_blk, flag,
}
use cs.Fs.Layout.Codec.{
  le16, le32, read32, read16-le16, read32-le32, encode_array, decode_array, All, IsCodec,
  length-encode_array, decode-encode_array,
}

abbrev pub IsWord : ℕ → Type 0
IsWord w = w < 2 ^ 32

-- A directory entry whose inode number has 30 bits and whose name fills its array.
pub record DirentFits (d : Dirent) : Type 0 where
  pub inode_fits : d.inode < 2 ^ 30
  pub name_fills : length d.name ≡ filename_size

pub record InodeFits (i : Inode) : Type 0 where
  pub ids : (i.uid < 2 ^ 16) × (i.gid < 2 ^ 16)
  pub words : (i.mode < 2 ^ 32) × (i.ctime < 2 ^ 32) × (i.mtime < 2 ^ 32) × (i.size < 2 ^ 32)
  pub indirs : (i.indir_1 < 2 ^ 32) × (i.indir_2 < 2 ^ 32)
  pub directs : All IsWord i.direct
  pub six : length i.direct ≡ n_direct
  pub pads : All IsWord i.pad
  pub three : length i.pad ≡ 3

length-le16 : (w : ℕ) → length (le16 w) ≡ 2
unfolding le16
length-le16 w = refl

length-le32 : (w : ℕ) → length (le32 w) ≡ 4
unfolding le32
length-le32 w = refl

pub IsWord-IsCodec : IsCodec IsWord le32 read32 4
IsWord-IsCodec = record {
  sized = λ w h. length-le32 w;
  read_back = λ w rest h. read32-le32 w rest h;
}

dirent_word :
    (v u : Bool) (n : ℕ)
    → n < 2 ^ 30
    → let word = flag v + 2 * flag u + 4 * n in
      (word < 2 ^ 32) × ((word % 2 == 1) ≡ v) × ((word / 2 % 2 == 1) ≡ u) × (word / 4 ≡ n)
dirent_word v u n h = ground arith

decode-encode_dirent :
    (d : Dirent) (rest : List ℕ) → DirentFits d → decode_dirent (encode_dirent d ++ rest) ≡ d
unfolding encode_dirent decode_dirent
decode-encode_dirent d rest h =
    let word = flag d.valid + 2 * flag d.unused + 4 * d.inode in
    let w = dirent_word d.valid d.unused d.inode h.inode_fits in
    rw (
      append_assoc (le32 word) d.name rest,
      read32-le32 word (d.name ++ rest) w.0,
      drop-append (le32 word) (d.name ++ rest) 4 (length-le32 word),
      take-append d.name rest filename_size h.name_fills,
      w.1,
      w.2,
      w.3,
    )

pub dirent-IsCodec : IsCodec DirentFits encode_dirent decode_dirent 32
unfolding encode_dirent
dirent-IsCodec = record {
  sized = λ d h. omega (
    arith,
    length-append (le32 (flag d.valid + 2 * flag d.unused + 4 * d.inode)) d.name,
    length-le32 (flag d.valid + 2 * flag d.unused + 4 * d.inode),
    h.name_fills,
  );
  read_back = decode-encode_dirent;
}

drop-le16 : (w : ℕ) (rest : List ℕ) → drop 2 (le16 w ++ rest) ≡ rest
drop-le16 w rest = drop-append (le16 w) rest 2 (length-le16 w)

drop-le32 : (w : ℕ) (rest : List ℕ) → drop 4 (le32 w ++ rest) ≡ rest
drop-le32 w rest = drop-append (le32 w) rest 4 (length-le32 w)

module _ (xs : List ℕ) (rest : List ℕ) (n : ℕ) (fits : All IsWord xs) (sized : length xs ≡ n) where
  pub decode-encode_words : decode_array read32 4 n (encode_array le32 xs ++ rest) ≡ xs
  decode-encode_words = decode-encode_array IsWord le32 read32 4 IsWord-IsCodec xs rest n fits sized

  drop-encode_words : drop (n * 4) (encode_array le32 xs ++ rest) ≡ rest
  drop-encode_words =
      drop-append (encode_array le32 xs) rest (n * 4)
        (omega (arith, length-encode_array IsWord le32 read32 4 IsWord-IsCodec xs fits))

decode-encode_inode :
    (i : Inode) (rest : List ℕ) → InodeFits i → decode_inode (encode_inode i ++ rest) ≡ i
unfolding encode_inode decode_inode
decode-encode_inode i rest h = simp (
  append_assoc,
  drop-le16,
  drop-le32,
  λ (r : List ℕ). drop-encode_words i.direct r n_direct h.directs h.six,
  λ (r : List ℕ). decode-encode_words i.direct r n_direct h.directs h.six,
  λ (r : List ℕ). decode-encode_words i.pad r 3 h.pads h.three,
  λ (r : List ℕ). read16-le16 i.uid r h.ids.0,
  λ (r : List ℕ). read16-le16 i.gid r h.ids.1,
  λ (r : List ℕ). read32-le32 i.mode r h.words.0,
  λ (r : List ℕ). read32-le32 i.ctime r h.words.1,
  λ (r : List ℕ). read32-le32 i.mtime r h.words.2,
  λ (r : List ℕ). read32-le32 i.size r h.words.3,
  λ (r : List ℕ). read32-le32 i.indir_1 r h.indirs.0,
  λ (r : List ℕ). read32-le32 i.indir_2 r h.indirs.1,
)

pub inode-IsCodec : IsCodec InodeFits encode_inode decode_inode 64
unfolding encode_inode
inode-IsCodec = record {
  sized = λ i h.
      simp (length-append, length-le16, length-le32)
        (omega (
          arith,
          length-encode_array IsWord le32 read32 4 IsWord-IsCodec i.direct h.directs,
          length-encode_array IsWord le32 read32 4 IsWord-IsCodec i.pad h.pads,
          h.six,
          h.three,
        ));
  read_back = decode-encode_inode;
}

-- A directory block: its 32 entries are read back, and fill the block.
pub decode-encode_dir :
    (es : List Dirent)
    → All DirentFits es
    → length es ≡ dirents_per_blk
    → (decode_dir (encode_dir es) ≡ es) × (length (encode_dir es) ≡ 1024)
unfolding encode_dir decode_dir
decode-encode_dir es fits n = (
  rw (append-nil (encode_array encode_dirent es)) at (
      decode-encode_array DirentFits encode_dirent decode_dirent 32 dirent-IsCodec es [] 32 fits n),
  omega
      (arith, length-encode_array DirentFits encode_dirent decode_dirent 32 dirent-IsCodec es fits),
)

-- A block of 256 block numbers.
pub decode-encode_ptrs :
    (ps : List ℕ)
    → All IsWord ps
    → length ps ≡ ptrs_per_blk
    → (decode_ptrs (encode_ptrs ps) ≡ ps) × (length (encode_ptrs ps) ≡ 1024)
unfolding encode_ptrs decode_ptrs
decode-encode_ptrs ps fits n = (
  rw (append-nil (encode_array le32 ps)) at
      (decode-encode_array IsWord le32 read32 4 IsWord-IsCodec ps [] 256 fits n),
  omega (arith, length-encode_array IsWord le32 read32 4 IsWord-IsCodec ps fits),
)

-- The inodes of `n` blocks of the inode region.
pub decode-encode_inodes :
    (n : ℕ) (is : List Inode)
    → All InodeFits is
    → length is ≡ n * inodes_per_blk
    → (decode_inodes n (encode_inodes is) ≡ is) × (length (encode_inodes is) ≡ n * 1024)
unfolding encode_inodes decode_inodes
decode-encode_inodes n is fits e = (
  rw (append-nil (encode_array encode_inode is)) at
      (decode-encode_array InodeFits encode_inode decode_inode 64 inode-IsCodec is [] _ fits e),
  omega (arith, length-encode_array InodeFits encode_inode decode_inode 64 inode-IsCodec is fits),
)
