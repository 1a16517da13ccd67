-- ===== src/Device.antt =====
-- pmeunier-project/image.c and blkdev.h: the block device kept in an image file.
-- The kernel's open, fstat, malloc and pread/pwrite are the environment: their results are fields
-- of `Host` and of the device. `content b` holds the bytes of block `b` of the file.
pub mod Laws
mod Tests
use cs.Common.{
  ℕ, zero, suc, ◌+◌, ◌-◌, ◌*◌, ◌/◌, ◌^◌, Bool, true, false, not, ◌&&◌, ◌||◌, Option, none, some,
  List, [], ◌++◌, ltb, leb, ◌==◌, if◌then◌else◌, take, drop,
}

-- `enum { BLOCK_SIZE = 1024 }`
abbrev pub block_size : ℕ
block_size = 1024

-- `struct image_dev` with the file behind its descriptor. `fd_open` is `fd != -1`; `transfers` says
-- whether pread and pwrite move all the bytes that they are asked for; `warnings` counts the
-- lines that `image_write` prints about the superblock.
pub record Device : Type 0 where
  pub fd_open : Bool
  pub nblks : ℕ
  pub content : ℕ → List ℕ
  pub transfers : Bool
  pub warnings : ℕ

-- What a call of the device's read or write comes to: SUCCESS with a result, E_UNAVAIL, the end of
-- the process by a failed `assert`, or a product that overflows an int, which C leaves undefined.
pub data Reply (A : Type 0) : Type 0 where
  success : A → Reply A
  e_unavail : Reply A
  aborted : Reply A
  overflowed : Reply A

pub image_num_blocks : Device → ℕ
image_num_blocks dev = dev.nblks

-- The bytes of `n` blocks from block `b` on.
unfoldable pub blocks_from : (ℕ → List ℕ) → ℕ → ℕ → List ℕ
blocks_from content b zero = []
blocks_from content b (suc n) = content b ++ blocks_from content (b + 1) n

-- `nblks*BLOCK_SIZE` and `first_blk*BLOCK_SIZE`, products of ints, are below 2^31.
abbrev pub in_ints : ℕ → ℕ → Bool
in_ints first_blk nblks = ltb (nblks * block_size) (2 ^ 31) && ltb (first_blk * block_size) (2 ^ 31)

unfoldable pub image_read : Device → ℕ → ℕ → Reply (List ℕ)
image_read dev first_blk nblks =
    if not dev.fd_open
    then e_unavail
    else if not (leb (first_blk + nblks) dev.nblks)
    then aborted
    else if not (in_ints first_blk nblks)
    then overflowed
    else if dev.transfers
    then success (blocks_from dev.content first_blk nblks)
    else aborted

-- The `k`-th block of a buffer.
unfoldable pub block_of : ℕ → List ℕ → List ℕ
block_of k buf = take block_size (drop (k * block_size) buf)

-- The file after `buf` is written over `n` blocks from block `first` on.
unfoldable pub overwrite : (ℕ → List ℕ) → ℕ → ℕ → List ℕ → ℕ → List ℕ
overwrite content first n buf b =
    if leb first b && ltb b (first + n) then block_of (b - first) buf else content b

unfoldable pub image_write : Device → ℕ → ℕ → List ℕ → Reply Device
image_write dev first_blk nblks buf =
    let warned = dev.warnings + (if first_blk == 0 then 1 else 0) in
    if not dev.fd_open
    then e_unavail
    else if not (leb (first_blk + nblks) dev.nblks)
    then aborted
    else if not (in_ints first_blk nblks)
    then overflowed
    else if dev.transfers
    then success
        (record dev { content = overwrite dev.content first_blk nblks buf; warnings = warned })
    else aborted

-- It flushes nothing, and returns one of two results.
unfoldable pub image_flush : Device → ℕ → ℕ → Reply (Unit {0})
image_flush dev first_blk nblks = if not dev.fd_open then e_unavail else success tt

-- `none` is a device whose memory has been freed; a failed one is left as it is.
unfoldable pub image_close : Device → Option Device
image_close dev = if dev.fd_open then none else some dev

-- What the system gives `image_create`: both `malloc`s, `open` and `fstat`, the file's size in
-- bytes, its bytes by block, and whether later transfers are complete.
pub record Host : Type 0 where
  pub malloc_ok : Bool
  pub open_ok : Bool
  pub fstat_ok : Bool
  pub st_size : ℕ
  pub file : ℕ → List ℕ
  pub io_ok : Bool

-- `none` is NULL. A file that is no multiple of the block size gets a warning on stderr only.
unfoldable pub image_create : Host → Option Device
image_create host =
    if not host.malloc_ok
    then none
    else if not host.open_ok
    then none
    else if not host.fstat_ok
    then none
    else some (record {
      fd_open = true;
      nblks = host.st_size / block_size;
      content = host.file;
      transfers = host.io_ok;
      warnings = 0;
    })

unfoldable pub image_fail : Device → Device
image_fail dev = record dev { fd_open = false }
