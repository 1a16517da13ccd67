-- ===== src/Fs/Directory.antt =====
-- Directories of pmeunier-project/fs.c that can be read: an inode whose first block lists entries.
use cs.Common.{
  ℕ, ◌<◌, ◌≡◌, ◌≢◌, refl, ◌∙◌, ap, true, some, List, inl, arith, length, get_elem?, ◌==◌,
  if◌then◌else◌,
}
use cs.Device.{Device}
use cs.Device.Laws.{IsReady, written, read_block, overwrite_block}
use cs.Fs.Layout.{Dirent, Inode, decode_dirent, decode_dir, encode_dir, dirents_per_blk}
use cs.Fs.Layout.Codec.{All}
use cs.Fs.Layout.RoundTrip.{DirentFits, decode-encode_dir}
use cs.Fs.Layout.Codec.{length-decode_array}
use cs.Fs.Monad.{State, M, Errno, done, fail, attempt, read_or_exit, inode_at, elem_at}
use cs.Fs.Dir.{Name, find_in_dir}
use cs.Fs.Dir.Laws.{NoZero}
use cs.Fs.Alloc.Update.{IsData}
use cs.Fs.Translate.{is_dir, lookup, enter, translate, translate_1}
use cs.Fs.Translate.Laws.{translate-translate_1}

pub inode_at_lem :
    (s : State) (k : ℕ) {v : Inode} → get_elem? s.inodes k ≡ some v → inode_at k s ≡ done v s
unfolding inode_at
inode_at_lem s k e = ground arith

pub attempt_done :
    {A : Type 0} (m : M A) {a : A} {s t : State} → m s ≡ done a t → attempt m s ≡ done (inl a) t
attempt_done m e = ground arith

==_refl : (b : ℕ) → (b == b) ≡ true
==_refl b = ground arith

pub read_lem :
    (s : State) (b : ℕ)
    → IsReady s.disk
    → b < s.disk.nblks
    → read_or_exit b 1 s ≡ done (s.disk.content b) s
unfolding read_or_exit
read_lem s b ready room = ground (arith, read_block b ready room)

-- The entries in block `b` of the disk.
abbrev pub entries_at : State → ℕ → List Dirent
entries_at s b = decode_dir (s.disk.content b)

-- Inode `d` is a directory whose entries lie in data block `b`.
pub record IsDirectory (s : State) (d b : ℕ) (p : Inode) : Type 0 where
  pub held : get_elem? s.inodes d ≡ some p
  pub typed : is_dir p.mode ≡ true
  pub first : get_elem? p.direct 0 ≡ some b
  pub is_data : IsData s b
  pub inside : b < s.disk.nblks

-- Entries that fit their fields, and of which no valid one has inode number 0.
pub record IsTidy (es : List Dirent) : Type 0 where
  pub fits : All DirentFits es
  pub no_zero : NoZero es

pub elem_at_lem :
    {A : Type 0} (xs : List A) (k : ℕ) {x : A} (s : State)
    → get_elem? xs k ≡ some x
    → elem_at xs k s ≡ done x s
unfolding elem_at
elem_at_lem xs k s e = ground arith

-- A lookup in a directory is a search of its block's entries, and 0 found means ENOENT.
pub lookup_lem :
    (s : State) (d b : ℕ) {p : Inode} (name : Name)
    → IsReady s.disk
    → IsDirectory s d b p
    → lookup d name s ≡ (
        if find_in_dir (entries_at s b) name == 0
        then fail Errno.enoent s
        else done (find_in_dir (entries_at s b) name) s)
unfolding lookup
lookup_lem s d b {p} name ready dir =
    go (inode_at_lem s d dir.held) (elem_at_lem p.direct 0 s dir.first)
      (read_lem s b ready dir.inside)
  where
    go :
        inode_at d s ≡ done p s
        → elem_at p.direct 0 s ≡ done b s
        → read_or_exit b 1 s ≡ done (s.disk.content b) s
        → lookup d name s ≡ (
            if find_in_dir (entries_at s b) name == 0
            then fail Errno.enoent s
            else done (find_in_dir (entries_at s b) name) s)
    go e1 e2 e3 = ground arith

pub length-entries_at : (s : State) (b : ℕ) → length (entries_at s b) ≡ dirents_per_blk
unfolding decode_dir
length-entries_at s b = length-decode_array decode_dirent 32 dirents_per_blk (s.disk.content b)

-- What a block holds once entries are written to it.
pub entries_at_written :
    (disk : Device) (b : ℕ) (es : List Dirent)
    → All DirentFits es
    → length es ≡ dirents_per_blk
    → decode_dir ((written disk b (encode_dir es)).content b) ≡ es
entries_at_written disk b es fits sized =
    let (back, whole) = decode-encode_dir es fits sized in
    ap decode_dir (overwrite_block disk.content b b (encode_dir es) whole ∙ rw (==_refl b) refl)
    ∙ back

-- Entering a directory is looking the name up in it.
pub enter_lem :
    (s : State) (d b : ℕ) {p : Inode} (name : Name)
    → IsDirectory s d b p
    → enter d name s ≡ lookup d name s
unfolding enter
enter_lem s d b {p} name dir = ground (arith, inode_at_lem s d dir.held, dir.typed)

-- A path that is not found has a leaf that its directory does not list.
pub unused_leaf :
    (s : State) (path : List ℕ) {e : Errno} {parent b : ℕ} {leaf : Name} {p : Inode}
    → IsReady s.disk
    → translate path s ≡ fail e s
    → translate_1 path s ≡ done (parent, some leaf) s
    → IsDirectory s parent b p
    → find_in_dir (entries_at s b) leaf ≡ 0
unused_leaf s path {parent = parent} {b = b} {leaf = leaf} ready missing above dir = ground (
  arith,
  missing,
  translate-translate_1 path s above,
  enter_lem s parent b leaf dir,
  lookup_lem s parent b leaf ready dir,
)

-- A path that is found has a leaf that its directory lists under the inode number found.
pub found_leaf :
    (s : State) (path : List ℕ) {inum parent b : ℕ} {leaf : Name} {p : Inode}
    → IsReady s.disk
    → translate path s ≡ done inum s
    → translate_1 path s ≡ done (parent, some leaf) s
    → IsDirectory s parent b p
    → (find_in_dir (entries_at s b) leaf ≡ inum) × (inum ≢ 0)
found_leaf s path {parent = parent} {b = b} {leaf = leaf} ready found above dir = ground (
  arith,
  found,
  translate-translate_1 path s above,
  enter_lem s parent b leaf dir,
  lookup_lem s parent b leaf ready dir,
)

-- The answer of a lookup that finds inode `k`, and of one that finds nothing.
pub lookup_found :
    (s : State) (d b k : ℕ) {p : Inode} (name : Name)
    → IsReady s.disk
    → IsDirectory s d b p
    → find_in_dir (entries_at s b) name ≡ k
    → k ≢ 0
    → lookup d name s ≡ done k s
lookup_found s d b k name ready dir e ne = ground (arith, lookup_lem s d b name ready dir)

pub lookup_missing :
    (s : State) (d b : ℕ) {p : Inode} (name : Name)
    → IsReady s.disk
    → IsDirectory s d b p
    → find_in_dir (entries_at s b) name ≡ 0
    → lookup d name s ≡ fail Errno.enoent s
lookup_missing s d b name ready dir e = ground (arith, lookup_lem s d b name ready dir)

-- The state after new entries are written to a directory's block.
abbrev pub rewritten : State → ℕ → List Dirent → State
rewritten s b es = record s { disk = written s.disk b (encode_dir es) }

pub rewritten-IsReady :
    (s : State) (b : ℕ) (es : List Dirent) → IsReady s.disk → IsReady (rewritten s b es).disk
rewritten-IsReady s b es r = record {
  available = r.available;
  complete = r.complete;
  small = r.small;
}

pub rewritten-IsDirectory :
    (s : State) (b : ℕ) (es : List Dirent) {d c : ℕ} {p : Inode}
    → IsDirectory s d c p
    → IsDirectory (rewritten s b es) d c p
rewritten-IsDirectory s b es dir = record {
  held = dir.held;
  typed = dir.typed;
  first = dir.first;
  is_data = dir.is_data;
  inside = dir.inside;
}
