-- ===== src/Device/Tests.antt =====
-- The theorem about pmeunier-project/image.c at a device of four blocks.
use cs.Common.{◌≡◌, refl, true, inl, arith, replicate}
use cs.Device.{Device, success, image_read, image_write}
use cs.Device.Laws.{read-write}

abbrev four_blocks : Device
four_blocks = record {
  fd_open = true;
  nblks = 4;
  content = λ b. replicate 1024 b;
  transfers = true;
  warnings = 0;
}

read-write_example :
    (dev' : Device) × (image_write four_blocks 2 1 (replicate 1024 7) ≡ success dev')
    × (image_read dev' 2 1 ≡ success (replicate 1024 7))
    × (image_read dev' 0 1 ≡ image_read four_blocks 0 1)
unfolding replicate
read-write_example =
    read-write 2 1 0 (replicate 1024 7)
      (record { available = refl; complete = refl; small = omega arith }) (omega arith) refl
      (inl (omega arith))
