-- ===== src/Partition/Examples.antt =====
-- A scan of a device that is a list of blocks of 512 bytes.
use exfat.Prelude.{◌≡◌, refl, [], ℕ, some, none, List, ◌∷◌, ◌++◌, replicate, take, drop}
use exfat.Chain.{Device}
use exfat.Partition.{efi_part, from_block, oem_name, scan_partitions}
use exfat.Partition.Found.{IsReport, scan_partitions-IsReport}

abbrev bytes_device : Device
bytes_device = record {
  Store = List ℕ;
  pread = λ store size offset. some (take size (drop offset store));
  pwrite = λ store bytes offset. none;
}

-- One volume, without a table.
abbrev superfloppy : List ℕ
superfloppy = 0xeb ∷ 0x76 ∷ 0x90 ∷ oem_name ++ replicate 501 0

scan_partitions-IsReport_example :
    IsReport bytes_device superfloppy 512 4 (scan_partitions bytes_device superfloppy 512 4 2000)
scan_partitions-IsReport_example = scan_partitions-IsReport bytes_device superfloppy 512 4 2000

-- A table whose first entry is at block 1, where a boot sector is, and whose second is behind the end of
-- the device: a read there stores nothing, and what the table has at the place of the name is not it.
abbrev block_of : List ℕ → List ℕ
block_of tail = replicate 446 0 ++ tail

abbrev table : List ℕ
table = block_of (
    (0 ∷ 0 ∷ 0 ∷ 0 ∷ 7 ∷ 0 ∷ 0 ∷ 0 ∷ 1 ∷ 0 ∷ 0 ∷ 0 ∷ 9 ∷ 0 ∷ 0 ∷ 0 ∷ [])
    ++ (0 ∷ 0 ∷ 0 ∷ 0 ∷ 7 ∷ 0 ∷ 0 ∷ 0 ∷ 99 ∷ 0 ∷ 0 ∷ 0 ∷ 9 ∷ 0 ∷ 0 ∷ 0 ∷ [])
    ++ replicate 32 0
    ++ 0x55 ∷ 0xaa ∷ [])

mbr_scanned :
    scan_partitions bytes_device (table ++ superfloppy) 512 4 2000
    ≡ (record { first_lba = 1; sectors = 9 }) ∷ []
unfolding from_block
mbr_scanned = refl

-- The entries of a GPT are probed one after another: the second is behind the end of the device, and is
-- reported by what the first left in the buffer.
abbrev gpt_entry : ℕ → List ℕ
gpt_entry lba = (1 ∷ replicate 31 0) ++ lba ∷ replicate 7 0 ++ lba ∷ replicate 87 0

abbrev gpt : List ℕ
gpt =
    block_of (
      (0 ∷ 0 ∷ 0 ∷ 0 ∷ 0xee ∷ 0 ∷ 0 ∷ 0 ∷ 1 ∷ 0 ∷ 0 ∷ 0 ∷ 9 ∷ 0 ∷ 0 ∷ 0 ∷ [])
      ++ replicate 48 0
      ++ 0x55 ∷ 0xaa ∷ [])
    ++ (efi_part ++ replicate 64 0 ++ 2 ∷ replicate 7 0 ++ 2 ∷ 0 ∷ 0 ∷ 0 ∷ 128 ∷ replicate 427 0)
    ++ (gpt_entry 3 ++ gpt_entry 99 ++ replicate 256 0)
    ++ superfloppy

gpt_scanned :
    scan_partitions bytes_device gpt 512 4 2000
    ≡ (record { first_lba = 3; sectors = 1 }) ∷ (record { first_lba = 99; sectors = 1 }) ∷ []
unfolding from_block
gpt_scanned = refl
