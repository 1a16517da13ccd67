-- ===== src/Device/Laws.antt =====
-- What pmeunier-project/image.c promises: a block device that keeps what is written.
use cs.Common.{
  ℕ, zero, suc, ◌+◌, ◌-◌, ◌*◌, ◌^◌, ◌≤◌, ◌<◌, ◌≡◌, refl, ◌≢◌, true, List, ◌++◌, arith, ◌==◌,
  if◌then◌else◌, length, drop, take_all, drop_all, drop-drop, take-append-drop, append-nil, ap, sym,
  ◌⊎◌, ℕ_discrete,
}
use cs.Device.{
  Device, success, block_size, block_of, blocks_from, image_read, overwrite, image_write,
}

-- A device that answers every access inside its `nblks` blocks: it has less than 2^21 of them, so
-- that the offsets in bytes are ints.
pub record IsReady (dev : Device) : Type 0 where
  pub available : dev.fd_open ≡ true
  pub complete : dev.transfers ≡ true
  pub small : dev.nblks < 2 ^ 21

-- A read of one block inside a ready device.
pub read_block :
    {dev : Device} (b : ℕ)
    → IsReady dev
    → b < dev.nblks
    → image_read dev b 1 ≡ success (dev.content b)
unfolding image_read blocks_from
read_block {dev} b r h = ground (arith, append-nil (dev.content b))

-- The device after a write of one block.
abbrev pub written : Device → ℕ → List ℕ → Device
written dev b buf = record dev {
  content = overwrite dev.content b 1 buf;
  warnings = dev.warnings + (if b == 0 then 1 else 0);
}

pub write_block :
    {dev : Device} (b : ℕ) (buf : List ℕ)
    → IsReady dev
    → b < dev.nblks
    → image_write dev b 1 buf ≡ success (written dev b buf)
unfolding image_write
write_block b buf r h = ground arith

block_of-zero : (buf : List ℕ) → length buf ≡ block_size → block_of 0 buf ≡ buf
unfolding block_of drop
block_of-zero buf h = take_all buf block_size h

block_of-append :
    (k : ℕ) (buf : List ℕ)
    → block_of k buf ++ drop ((k + 1) * block_size) buf ≡ drop (k * block_size) buf
unfolding block_of
block_of-append k buf =
    rw (← drop-drop block_size (k * block_size) ((k + 1) * block_size) buf (omega arith))
      (take-append-drop block_size (drop (k * block_size) buf))

-- A write of one block leaves every other block.
pub overwrite_ne :
    (content : ℕ → List ℕ) (a b : ℕ) (buf : List ℕ)
    → a ≢ b
    → overwrite content a 1 buf b ≡ content b
unfolding overwrite
overwrite_ne content a b buf ne = ground arith

overwrite_outside :
    (content : ℕ → List ℕ) (first n b : ℕ) (buf : List ℕ)
    → b < first ⊎ first + n ≤ b
    → blocks_from (overwrite content first n buf) b 1 ≡ blocks_from content b 1
unfolding overwrite blocks_from
overwrite_outside content first n b buf outside = ground arith

-- Block `b` after a write of one block to `a`.
pub overwrite_block :
    (content : ℕ → List ℕ) (a b : ℕ) (buf : List ℕ)
    → length buf ≡ block_size
    → overwrite content a 1 buf b ≡ (if a == b then buf else content b)
unfolding overwrite
overwrite_block content a b buf h = elim (ℕ_discrete a b) [
  | yes e ↦
      let none_skipped : b - a ≡ 0 = omega arith in
      ground (arith, block_of-zero buf h, ap (λ k. block_of k buf) none_skipped)
  | no ne ↦ ground arith
]

module _ (content : ℕ → List ℕ) (first n : ℕ) (buf : List ℕ)
    (sized : length buf ≡ n * block_size) where
  overwrite_inside :
      (i b : ℕ) → i < n → first + i ≡ b → overwrite content first n buf b ≡ block_of i buf
  unfolding overwrite
  overwrite_inside i b h at_b =
      let e : b - first ≡ i = omega arith in ground (arith, ap (λ k. block_of k buf) e)

  -- The blocks from the `i`-th of a write on hold the rest of its buffer.
  written_from :
      (i j b : ℕ)
      → i + j ≡ n
      → first + i ≡ b
      → blocks_from (overwrite content first n buf) b j ≡ drop (i * block_size) buf
  unfolding blocks_from
  written_from i zero b e at_b = sym (drop_all buf (i * block_size) (omega arith))
  written_from i (suc j) b e at_b =
      rw
        (
          overwrite_inside i b (omega arith) at_b,
          written_from (i + 1) j (b + 1) (omega arith) (omega arith),
        )
        (block_of-append i buf)

  pub written_all : blocks_from (overwrite content first n buf) first n ≡ buf
  unfolding drop
  written_all = written_from 0 n first (omega arith) (omega arith)

-- On a ready device, one of less than 2^21 blocks that answers, what a write to a range of blocks
-- inside it stores is what the next read of the range returns, and it changes no other block.
pub read-write :
    {dev : Device} (first n b : ℕ) (buf : List ℕ)
    → IsReady dev
    → first + n ≤ dev.nblks
    → length buf ≡ n * block_size
    → b < first ⊎ first + n ≤ b
    → (dev' : Device) × (image_write dev first n buf ≡ success dev')
      × (image_read dev' first n ≡ success buf)
      × (image_read dev' b 1 ≡ image_read dev b 1)
unfolding image_write image_read
read-write {dev} first n b buf r h sized outside = (
  record dev {
    content = overwrite dev.content first n buf;
    warnings = dev.warnings + (if first == 0 then 1 else 0);
  },
  ground arith,
  ground (arith, written_all dev.content first n buf sized),
  rw (overwrite_outside dev.content first n b buf outside) refl,
)
