-- ===== src/Fs/Write/Laws.antt =====
-- Overwriting a file's direct blocks in pmeunier-project/fs.c.
use cs.Common.{
  ℕ, zero, suc, ◌+◌, ◌-◌, ◌≤◌, ◌<◌, ◌≡◌, ◌≢◌, refl, List, some, inl, arith, length, take, drop,
  get_elem?, length-append, length-drop,
}
use cs.Device.{Device, block_size}
use cs.Device.Laws.{IsReady, written}
use cs.Fs.Layout.{Inode}
use cs.Fs.Monad.{State, done}
use cs.Fs.Alloc.Laws.{write_lem}
use cs.Fs.Directory.{read_lem, inode_at_lem, elem_at_lem}
use cs.Fs.Read.{sub_size}
use cs.Fs.Read.Laws.{HoldsData}
use cs.Fs.Write.{splice, fs_write_blk, direct_block, write_direct}

-- The block's bytes after a copy to its start.
abbrev pub over : List ℕ → List ℕ → List ℕ
over entries bytes = splice entries 0 bytes

pub length-over :
    (entries bytes : List ℕ)
    → length entries ≡ block_size
    → length bytes ≤ block_size
    → length (over entries bytes) ≡ block_size
unfolding take
length-over entries bytes whole small = omega (
  arith,
  length-append bytes (drop (0 + length bytes) entries),
  length-drop (0 + length bytes) entries,
)

-- The device after bytes are copied to the start of block `p`.
abbrev pub over_block : Device → ℕ → List ℕ → Device
over_block disk p bytes = written disk p (over (disk.content p) bytes)

write_start :
    (s : State) (p len : ℕ) (buf : List ℕ)
    → IsReady s.disk
    → HoldsData s p
    → len ≤ block_size
    → len ≤ length buf
    → fs_write_blk p buf len 0 s ≡ done tt (record s { disk = over_block s.disk p (take len buf) })
unfolding fs_write_blk
write_start s p len buf ready h small fits = ground (
  arith,
  read_lem s p ready h.inside,
  write_lem s p (over (s.disk.content p) (take len buf)) ready h.inside,
)

-- The block of a pointer that is set.
direct_lem :
    (s : State) (inum k p : ℕ) {v : Inode}
    → get_elem? s.inodes inum ≡ some v
    → get_elem? v.direct k ≡ some p
    → p ≢ 0
    → direct_block inum k s ≡ done (inl p) s
unfolding direct_block
direct_lem s inum k p {v} held at real =
    ground (arith, inode_at_lem s inum held, elem_at_lem v.direct k s at)

pub write_none :
    (r inum k : ℕ) (buf : List ℕ) (offset : ℕ) (s : State)
    → write_direct r inum k buf 0 offset s ≡ done 0 s
unfolding write_direct
write_none zero inum k buf offset s = refl
write_none (suc r) inum k buf offset s = refl

-- A round that writes a whole block, and the last round.
pub write_more :
    (s t : State) (r inum k p n : ℕ) (buf : List ℕ) {v : Inode}
    → get_elem? s.inodes inum ≡ some v
    → get_elem? v.direct k ≡ some p
    → IsReady s.disk
    → HoldsData s p
    → block_size < n
    → length buf ≡ n
    → write_direct r inum
        (k + 1)
        (drop block_size buf)
        (n - block_size)
        0
        (record s { disk = over_block s.disk p (take block_size buf) })
      ≡ done 0 t
    → write_direct (suc r) inum k buf n 0 s ≡ done 0 t
unfolding write_direct sub_size
write_more s t r inum k p n buf held at ready h more sized rest =
    ground (arith, direct_lem s inum k p held at h.real, write_start s p block_size buf ready h)

pub write_last :
    (s : State) (r inum k p n : ℕ) (buf : List ℕ) {v : Inode}
    → get_elem? s.inodes inum ≡ some v
    → get_elem? v.direct k ≡ some p
    → IsReady s.disk
    → HoldsData s p
    → 0 < n
    → n ≤ block_size
    → length buf ≡ n
    → write_direct (suc r) inum k buf n 0 s
      ≡ done 0 (record s { disk = over_block s.disk p (take n buf) })
unfolding write_direct sub_size
write_last s r inum k p n buf held at ready h pos small sized =
    let z : n - n ≡ 0 = omega arith in
    ground (
      arith,
      z,
      direct_lem s inum k p held at h.real,
      write_start s p n buf ready h,
      write_none r inum (k + 1) (drop n buf) 0
          (record s { disk = over_block s.disk p (take n buf) }),
    )
