-- ===== src/Fs/Read.antt =====
-- Reading file data in pmeunier-project/fs.c: fs_read_blk, fs_read_dir, fs_read_indir1,
-- fs_read_indir2 and fs_read. `room` is what is left of the caller's buffer, whose size is the
-- number of bytes asked for; a copy past it, or from behind a block's bytes, is an undefined access.
-- A function returns the bytes not yet read, as `len_to_read` has them, and the bytes copied.
pub mod Laws
use cs.Common.{
  ℕ, zero, suc, ◌+◌, ◌-◌, ◌*◌, ◌/◌, ◌%◌, ◌^◌, Bool, true, false, ◌&&◌, ◌||◌, List, [], ◌∷◌, ◌++◌,
  take, drop, ltb, leb, ◌==◌, if◌then◌else◌,
}
use cs.Device.{block_size, image_read, success, e_unavail, aborted, overflowed}
use cs.Fs.Layout.{decode_ptrs, ptrs_per_blk}
use cs.Fs.Monad.{
  State, M, pure, crash, ◌>>=◌, ◌>>◌, fail_if, eisdir, read_or_exit, inode_at, done, halt, asserted,
}
use cs.Fs.Translate.{is_dir, translate}

-- `DIR_SIZE`, `INDIR1_SIZE` and `INDIR2_SIZE`; the last one's int arithmetic does not overflow.
abbrev pub dir_size : ℕ
dir_size = 6144

abbrev pub indir1_size : ℕ
indir1_size = 262144

abbrev pub indir2_size : ℕ
indir2_size = 67108864

-- `a - b` on size_t.
unfoldable pub sub_size : ℕ → ℕ → ℕ
sub_size a b = if leb b a then a - b else a + 2 ^ 64 - b

unfoldable pub fs_read_blk : ℕ → ℕ → ℕ → ℕ → M (List ℕ)
fs_read_blk blk_num room len offset = do
  entries ← read_or_exit blk_num 1
  if leb (offset + len) block_size && leb len room
      then pure (take len (drop offset entries))
      else crash

-- `cur_len_to_read` and `temp` in one round.
abbrev pub round_size : ℕ → ℕ → ℕ → ℕ
round_size unit n offset = offset + (if ltb unit n then unit - offset else n)

-- The loop of fs_read_dir and fs_read_indir1, over the pointers from `blk_num` on.
unfoldable pub read_blocks : List ℕ → ℕ → ℕ → ℕ → M (ℕ × List ℕ)
read_blocks [] room n offset = pure (n, [])
read_blocks (p ∷ ps) room n offset = if n == 0 || p == 0 then pure (n, []) else (do
  let temp = round_size block_size n offset
  chunk ← fs_read_blk p room temp offset
  (left, bytes) ← read_blocks ps (room - temp) (sub_size n temp) 0
  pure (left, chunk ++ bytes))

unfoldable pub fs_read_dir : ℕ → ℕ → ℕ → ℕ → M (ℕ × List ℕ)
fs_read_dir inode_idx room len offset = do
  v ← inode_at inode_idx
  read_blocks (drop (offset / block_size) v.direct) room len (offset % block_size)

unfoldable pub fs_read_indir1 : ℕ → ℕ → ℕ → ℕ → M (ℕ × List ℕ)
fs_read_indir1 blk room len offset = do
  block ← read_or_exit blk 1
  read_blocks (drop (offset / block_size) (decode_ptrs block)) room len (offset % block_size)

-- The loop of fs_read_indir2: what is read is what the inner call reports.
unfoldable pub read_tables : List ℕ → ℕ → ℕ → ℕ → M (ℕ × List ℕ)
read_tables [] room n offset = pure (n, [])
read_tables (p ∷ ps) room n offset = if n == 0 || p == 0 then pure (n, []) else (do
  let asked = round_size indir1_size n offset
  (missing, chunk) ← fs_read_indir1 p room asked offset
  let temp = sub_size asked missing
  (left, bytes) ← read_tables ps (room - temp) (sub_size n temp) 0
  pure (left, chunk ++ bytes))

-- A read of the first block that is not possible ends the function with 0 bytes.
unfoldable pub fs_read_indir2 : ℕ → ℕ → ℕ → ℕ → M (ℕ × List ℕ)
fs_read_indir2 blk room len offset s = elim (image_read s.disk blk 1) [
  | success block ↦
      read_tables (drop (offset / indir1_size) (decode_ptrs block)) room len (offset % indir1_size)
        s
  | e_unavail ↦ done (len, []) s
  | aborted ↦ halt asserted s
  | overflowed ↦ crash s
]

-- The blocks of one kind, if there is something left to read and the offset is below their end.
unfoldable pub read_part : ℕ → (ℕ → ℕ → M (ℕ × List ℕ)) → ℕ × ℕ × List ℕ → M (ℕ × ℕ × List ℕ)
read_part end part (n, offset, got) =
    if n == 0 || leb end offset
    then pure (n, offset, got)
    else (do (left, bytes) ← part n offset; pure (left, offset + sub_size n left, got ++ bytes))

-- The three parts, one after the other. The last `offset += size_to_read` is of no effect.
unfoldable pub read_parts : ℕ → ℕ → ℕ → ℕ → ℕ → M (ℕ × List ℕ)
unfolding read_part
read_parts inum indir_1 indir_2 len offset = do
  r0 ← read_part dir_size (λ n o. fs_read_dir inum n n o) (len, offset, [])
  r1 ←
      read_part (dir_size + indir1_size) (λ n o. fs_read_indir1 indir_1 n n (sub_size o dir_size))
        r0
  (left, o, got) ←
      read_part (dir_size + indir1_size + indir2_size)
        (λ n o. fs_read_indir2 indir_2 n n (sub_size o (dir_size + indir1_size))) r1
  pure (sub_size len left, got)

-- The result and the bytes in the caller's buffer. A size with bit 31 set is a negative int.
unfoldable pub fs_read : List ℕ → ℕ → ℕ → M (ℕ × List ℕ)
fs_read path len offset = do
  inum ← translate path
  v ← inode_at inum
  fail_if (is_dir v.mode) eisdir
  if leb (2 ^ 31) v.size || ltb v.size offset
      then pure (0, [])
      else if ltb v.size ((offset + len) % 2 ^ 64)
      then pure (v.size - offset, [])
      else read_parts inum v.indir_1 v.indir_2 len offset
