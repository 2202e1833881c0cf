-- ===== src/Block/Tests.antt =====
-- The theorems on block devices at a disk of four blocks whose state is the list of its bytes.
use brane_os.Prelude.{
  ℕ, ◌+◌, ◌*◌, ◌/◌, Bool, true, false, List, [], ◌∷◌, ◌++◌, length, take, drop, replicate, ok,
}
use brane_os.Block.{
  BlockDevice, BlockDeviceInfo, BlockError, is_read_only, out_of_range, new, register, read, write,
  validate_transfer,
}
use brane_os.Block
use brane_os.Block.Transfers.{Writing, write_lem}

-- A device is true when it may only be read.
abbrev disk : BlockDevice Bool (List ℕ)
disk = record {
  name = λ bytes only_read. 109 ∷ 101 ∷ 109 ∷ [];
  block_size = λ bytes only_read. 512;
  block_count = λ bytes only_read. length bytes / 512;
  read_only = λ bytes only_read. only_read;
  read_blocks = λ bytes only_read lba len. (ok (take len (drop (lba * 512) bytes)), bytes);
  write_blocks = λ bytes only_read lba new_bytes.
      (ok tt, take (lba * 512) bytes ++ (new_bytes ++ drop (lba * 512 + length new_bytes) bytes));
  flush = λ bytes only_read. (ok tt, bytes);
}

abbrev zeros : List ℕ
zeros = replicate 2048 0

abbrev one_disk : Block.BlockRegistry disk
one_disk = (register disk (λ bytes. true) zeros (new disk) false).1

write_lem_example :
    Writing disk one_disk zeros 1 2
      (replicate 512 0xA5)
      (write disk one_disk zeros 1 2 (replicate 512 0xA5)).0
      (write disk one_disk zeros 1 2 (replicate 512 0xA5)).1
write_lem_example = write_lem disk one_disk zeros 1 2 (replicate 512 0xA5)
