-- ===== src/Fs/Write.antt =====
-- Writing file data in pmeunier-project/fs.c: fs_write_blk, fs_write_dir, fs_write_indir1,
-- fs_write_indir2 and fs_write. `buf` is what is left of the caller's bytes; a copy from behind
-- their end, or past the end of a block, is an undefined access. A function returns the bytes not
-- yet written, as `len_to_write` has them.
pub mod Laws
pub mod Direct
pub mod File
use cs.Common.{
  ℕ, zero, suc, ◌+◌, ◌-◌, ◌*◌, ◌/◌, ◌%◌, ◌^◌, Bool, true, false, ◌&&◌, ◌||◌, List, [], ◌∷◌, ◌++◌,
  length, set, take, drop, ltb, leb, ◌==◌, if◌then◌else◌, ◌⊎◌, inl, inr,
}
use cs.Device.{block_size, image_read, success, e_unavail, aborted, overflowed}
use cs.Fs.Layout.{Inode, n_direct, encode_ptrs, decode_ptrs, ptrs_per_blk}
use cs.Fs.Monad.{
  State, M, Errno, pure, crash, ◌>>=◌, ◌>>◌, attempt, fail_if, eisdir, read_or_exit, write_or_exit,
  inode_at, set_inode, elem_at, done, halt, asserted,
}
use cs.Fs.Alloc.{get_free_blk, update_inode, update_blk}
use cs.Fs.Translate.{is_dir, translate}
use cs.Fs.Read.{dir_size, indir1_size, indir2_size, sub_size, round_size}

-- `memcpy(entries + offset, buf, len)`
abbrev pub splice : List ℕ → ℕ → List ℕ → List ℕ
splice entries offset bytes = take offset entries ++ (bytes ++ drop (offset + length bytes) entries)

unfoldable pub fs_write_blk : ℕ → List ℕ → ℕ → ℕ → M (Unit {0})
fs_write_blk blk_num buf len offset = do
  entries ← read_or_exit blk_num 1
  if leb (offset + len) block_size && leb len (length buf)
      then write_or_exit blk_num 1 (splice entries offset (take len buf))
      else crash

-- What an allocation that fails makes the caller return, or the rest of the caller.
abbrev pub or_stop : {A : Type 0} → A → (ℕ → M A) → ℕ ⊎ Errno → M A
or_stop a rest (inl b) = rest b
or_stop a rest (inr e) = pure a

-- `if (!inode->direct[k]) { … }`: the block to write to, or the error of get_free_blk.
unfoldable pub direct_block : ℕ → ℕ → M (ℕ ⊎ Errno)
direct_block inode_idx k = do
  v ← inode_at inode_idx
  p ← elem_at v.direct k
  if p == 0
      then (do
        got ← attempt get_free_blk
        or_stop got
            (λ freeb. do
              set_inode inode_idx (record v { direct = set v.direct k freeb })
              update_inode inode_idx
              pure (inl freeb))
            got)
      else pure (inl p)

-- The loop of fs_write_dir with the rounds left, from `blk_num` on.
unfoldable pub write_direct : ℕ → ℕ → ℕ → List ℕ → ℕ → ℕ → M ℕ
write_direct zero inode_idx blk_num buf n offset = pure n
write_direct (suc r) inode_idx blk_num buf n offset = if n == 0 then pure n else (do
  let temp = if ltb block_size n then block_size - offset else n
  target ← direct_block inode_idx blk_num
  or_stop n
      (λ p. do
        fs_write_blk p buf temp offset
        write_direct r inode_idx (blk_num + 1) (drop temp buf) (sub_size n temp) 0)
      target)

unfoldable pub fs_write_dir : ℕ → List ℕ → ℕ → ℕ → M ℕ
fs_write_dir inode_idx buf len offset =
    write_direct (n_direct - offset / block_size) inode_idx (offset / block_size) buf len
      (offset % block_size)

-- `if (!blk_indices[k]) { … }`: the array, which is written back to block `blk`, and the pointer.
unfoldable pub table_block : ℕ → List ℕ → ℕ → M ((List ℕ × ℕ) ⊎ Errno)
table_block blk ptrs k = do
  p ← elem_at ptrs k
  if p == 0
      then (do
        got ← attempt get_free_blk
        elim got [
          | inr e ↦ pure (inr e)
          | inl freeb ↦ (do
            write_or_exit blk 1 (encode_ptrs (set ptrs k freeb))
            pure (inl (set ptrs k freeb, freeb)))
        ])
      else pure (inl (ptrs, p))

abbrev pub or_stop_table : {A : Type 0} → A → (List ℕ → ℕ → M A) → (List ℕ × ℕ) ⊎ Errno → M A
or_stop_table a rest (inl (ptrs, b)) = rest ptrs b
or_stop_table a rest (inr e) = pure a

-- The loop of fs_write_indir1.
unfoldable pub write_single : ℕ → ℕ → List ℕ → ℕ → List ℕ → ℕ → ℕ → M ℕ
write_single zero blk ptrs blk_num buf n offset = pure n
write_single (suc r) blk ptrs blk_num buf n offset = if n == 0 then pure n else (do
  let temp = round_size block_size n offset
  target ← table_block blk ptrs blk_num
  or_stop_table n
      (λ ptrs' p. do
        fs_write_blk p buf temp offset
        write_single r blk ptrs' (blk_num + 1) (drop temp buf) (sub_size n temp) 0)
      target)

unfoldable pub fs_write_indir1 : ℕ → List ℕ → ℕ → ℕ → M ℕ
fs_write_indir1 blk buf len offset = do
  block ← read_or_exit blk 1
  write_single (ptrs_per_blk - offset / block_size) blk (decode_ptrs block) (offset / block_size)
      buf len (offset % block_size)

-- The loop of fs_write_indir2. What is left is lowered before anything is allocated or written.
unfoldable pub write_double : ℕ → ℕ → List ℕ → ℕ → List ℕ → ℕ → ℕ → M ℕ
write_double zero blk ptrs blk_num buf n offset = pure n
write_double (suc r) blk ptrs blk_num buf n offset = if n == 0 then pure n else (do
  let asked = round_size indir1_size n offset
  let left = sub_size n asked
  target ← table_block blk ptrs blk_num
  or_stop_table left
      (λ ptrs' p. do
        missing ← fs_write_indir1 p buf asked offset
        let temp = sub_size asked missing
        if temp == 0
            then pure left
            else write_double r blk ptrs' (blk_num + 1) (drop temp buf) left 0)
      target)

unfoldable pub fs_write_indir2 : ℕ → List ℕ → ℕ → ℕ → M ℕ
fs_write_indir2 blk buf len offset s = elim (image_read s.disk blk 1) [
  | success block ↦
      write_double (ptrs_per_blk - offset / indir1_size) blk (decode_ptrs block)
        (offset / indir1_size) buf len (offset % indir1_size) s
  | e_unavail ↦ done len s
  | aborted ↦ halt asserted s
  | overflowed ↦ crash s
]

-- `if (!inode->indir_1) { … }` and the same for `indir_2`: the pointer, or the error.
unfoldable pub root_block : ℕ → (Inode → ℕ) → (Inode → ℕ → Inode) → M (ℕ ⊎ Errno)
root_block inum pointer store = do
  v ← inode_at inum
  if pointer v == 0
      then (do
        got ← attempt get_free_blk
        or_stop got
            (λ freeb. do set_inode inum (store v freeb); update_inode inum; pure (inl freeb)) got)
      else pure (inl (pointer v))

-- The end of `fs_write`: the size is raised to the offset, and the inode and the maps are written.
unfoldable pub finish_write : ℕ → ℕ → ℕ → ℕ → M ℕ
finish_write inum len n offset = do
  v ← inode_at inum
  set_inode inum
      (if leb (2 ^ 31) v.size || ltb v.size offset then record v { size = offset % 2 ^ 32 } else v)
  update_inode inum
  update_blk
  pure (sub_size len n)

-- The third part: the offset is moved by what is left, not by what is written.
unfoldable pub write_second : ℕ → ℕ → ℕ → ℕ → List ℕ → M ℕ
write_second inum len n offset buf =
    if n == 0 || leb (dir_size + indir1_size + indir2_size) offset
    then finish_write inum len n offset
    else (do
      root ← root_block inum (λ v. v.indir_2) (λ v b. record v { indir_2 = b })
      or_stop (sub_size len n)
          (λ p. do
            left ← fs_write_indir2 p buf n (sub_size offset (dir_size + indir1_size))
            finish_write inum len left (offset + left))
          root)

unfoldable pub write_first : ℕ → ℕ → ℕ → ℕ → List ℕ → M ℕ
write_first inum len n offset buf =
    if n == 0 || leb (dir_size + indir1_size) offset
    then write_second inum len n offset buf
    else (do
      root ← root_block inum (λ v. v.indir_1) (λ v b. record v { indir_1 = b })
      or_stop (sub_size len n)
          (λ p. do
            left ← fs_write_indir1 p buf n (sub_size offset dir_size)
            let temp = sub_size n left
            write_second inum len left (offset + temp) (drop temp buf))
          root)

-- The result is what `fs_write` returns before its cast to int.
unfoldable pub fs_write : List ℕ → List ℕ → ℕ → M ℕ
fs_write path buf offset = do
  inum ← translate path
  v ← inode_at inum
  fail_if (is_dir v.mode) eisdir
  if leb (2 ^ 31) v.size || ltb v.size offset
      then pure 0
      else if length buf == 0 || leb dir_size offset
      then write_first inum (length buf) (length buf) offset buf
      else (do
        left ← fs_write_dir inum buf (length buf) offset
        let temp = sub_size (length buf) left
        write_first inum (length buf) left (offset + temp) (drop temp buf))
