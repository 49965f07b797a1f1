-- ===== src/Chain/Examples.antt =====
-- Chains on a device that is a list of bytes, with a table at its start.
use exfat.Prelude.{ℕ, ◌+◌, true, false, some, List, [], ◌∷◌, ◌++◌, take, drop, length}
use exfat.Dirent.{Node, allocate_node}
use exfat.Chain.{Device, SuperBlock, Exfat, File}
use exfat.Prelude.Int.{pos}
use exfat.Prelude.Effect.Holds.{Holds}
use exfat.Bitmap.{Endian}
use exfat.Chain.Resize.{truncate}
use exfat.Chain.Truncate.{IsTruncated, IsUnchanged, truncate-IsTruncated}

abbrev bytes_device : Device
bytes_device = record {
  Store = List ℕ;
  pread = λ store size offset. some (take size (drop offset store));
  pwrite =
      λ store bytes offset. some (take offset store ++ bytes ++ drop (offset + length bytes) store);
}

abbrev blocks : SuperBlock
blocks = record {
  fat_sector_start = 0;
  cluster_sector_start = 1;
  cluster_count = 6;
  sector_bits = 9;
  spc_bits = 3;
}

-- Cluster 2 is followed by 5, and 5 by 3.
abbrev disk : Exfat bytes_device
disk = record {
  dev =
      0xf8 ∷ 0xff ∷ 0xff ∷ 0xff ∷ 0xff ∷ 0xff ∷ 0xff ∷ 0xff ∷ 5 ∷ 0 ∷ 0 ∷ 0 ∷ 0xff ∷ 0xff ∷ 0xff
      ∷ 0xff ∷ 0 ∷ 0 ∷ 0 ∷ 0 ∷ 3 ∷ 0 ∷ 0 ∷ 0 ∷ [];
  sb = blocks;
  cmap = record { start_cluster = 2; size = 6; chunk = 0x0b ∷ []; chunk_size = 6; dirty = false };
}

-- The pointer stands at the second cluster of the file.
abbrev file : Node
file = record allocate_node { start_cluster = 2; fptr_index = 1; fptr_cluster = 5 }

truncate-IsTruncated_example :
    Holds
      (Unit {0})
      (λ rc. IsUnchanged bytes_device (record { ef = disk; node = file }))
      (λ u. IsTruncated bytes_device (record { ef = disk; node = file }) 5000 true)
      (truncate bytes_device Endian.little false
        (pos 7)
        5000
        true
        (record { ef = disk; node = file }))
truncate-IsTruncated_example =
    truncate-IsTruncated bytes_device Endian.little false (pos 7) 5000 true
      (record { ef = disk; node = file })

abbrev fresh : File bytes_device
fresh = record { ef = disk; node = allocate_node }
