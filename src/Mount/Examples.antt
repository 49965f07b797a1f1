-- ===== src/Mount/Examples.antt =====
-- A boot region whose bytes all are 3, a root directory of two clusters, and a small boot sector.
use exfat.Prelude.{
  ℕ, ◌+◌, ◌*◌, ◌%◌, ◌^◌, ◌<◌, ◌≡◌, refl, ◌⊎◌, true, false, some, List, [], ◌∷◌, ◌++◌, get_or, take,
  drop, length, replicate, arith,
}
use exfat.Bitmap.{Endian, Cmap}
use exfat.Bitmap.Count.{used_count}
use exfat.Checksum.{vbr_start_checksum}
use exfat.Dirent.{Node, allocate_node}
use exfat.Chain.{Device, Exfat, next_cluster, sb_cluster_size}
use exfat.Chain.Pointer.{here, there}
use exfat.Io.Examples.{byte_device, byte_device-IsFlat, byte_device-IsExact}
use exfat.Prelude.Spans.{span}
use exfat.Mount.{soiled, finalized, verify_vbr_checksum, rootdir_size}
use exfat.Mount.Verify.{verify_vbr_checksum-whole}
use exfat.Mount.Summed.{IsSummed, verify_vbr_checksum-IsSummed}
use exfat.Prelude.Effect.{eio, failed, done}
use exfat.Mount.Root.{IsClosed, rootdir_size-IsClosed}
use exfat.Mount.State.{IsPercent, finalized-vbr_start_checksum, finalized-IsPercent}

verify_vbr_checksum-whole_example :
    verify_vbr_checksum byte_device 512 true true (λ i. 3)
    ≡ verify_vbr_checksum byte_device 512 true false (λ i. 3)
verify_vbr_checksum-whole_example =
    verify_vbr_checksum-whole byte_device 512 true (λ i. 3) (span (λ i. 3) 0 (12 * 512))
      byte_device-IsFlat byte_device-IsExact refl

verify_vbr_checksum-IsSummed_example :
    (IsSummed 512 (span (λ i. 3) 0 (12 * 512))
      × (verify_vbr_checksum byte_device 512 false false (λ i. 3) ≡ done tt (λ i. 3)))
    ⊎ (¬ IsSummed 512 (span (λ i. 3) 0 (12 * 512))
        × (verify_vbr_checksum byte_device 512 false false (λ i. 3) ≡ failed eio (λ i. 3)))
verify_vbr_checksum-IsSummed_example =
    verify_vbr_checksum-IsSummed byte_device 512 false (λ i. 3) (span (λ i. 3) 0 (12 * 512))
      byte_device-IsFlat byte_device-IsExact refl

-- Cluster 2 is followed by 4, and 4 by the end.
abbrev table_device : Device
table_device = record {
  Store = List ℕ;
  pread = λ store size offset. some (take size (drop offset store));
  pwrite =
      λ store bytes offset. some (take offset store ++ bytes ++ drop (offset + length bytes) store);
}

abbrev volume : Exfat table_device
volume = record {
  dev =
      0xf8 ∷ 0xff ∷ 0xff ∷ 0xff ∷ 0xff ∷ 0xff ∷ 0xff ∷ 0xff ∷ 4 ∷ 0 ∷ 0 ∷ 0 ∷ 0 ∷ 0 ∷ 0 ∷ 0 ∷ 0xff
      ∷ 0xff ∷ 0xff ∷ 0xff ∷ [];
  sb = record {
    fat_sector_start = 0;
    cluster_sector_start = 1;
    cluster_count = 6;
    sector_bits = 9;
    spc_bits = 3;
  };
  cmap = record { start_cluster = 2; size = 6; chunk = 0x07 ∷ []; chunk_size = 6; dirty = false };
}

abbrev root : Node
root = record allocate_node { start_cluster = 2; fptr_cluster = 2 }

root_chain : IsClosed table_device volume root 2 1
unfolding next_cluster
root_chain = record { last = 4; valid = refl; chain = there refl refl here; end = refl }

rootdir_size-IsClosed_example :
    (rootdir_size table_device volume root ≡ some 0)
    ⊎ ((k : ℕ) × IsClosed table_device volume root 2 k
        × (k < 6)
        × (rootdir_size table_device volume root
            ≡ some ((k + 1) * sb_cluster_size volume.sb % 2 ^ 64)))
rootdir_size-IsClosed_example = rootdir_size-IsClosed table_device volume root

-- Ten clusters, three of which are in use, with a percentage of 0.
abbrev boot : List ℕ
boot = replicate 92 0 ++ 10 ∷ replicate 30 0

abbrev map : Cmap
map = record {
  start_cluster = 2;
  size = 10;
  chunk = 0x07 ∷ 0x00 ∷ [];
  chunk_size = 10;
  dirty = false;
}

finalized-vbr_start_checksum_example :
    (vbr_start_checksum (soiled boot) ≡ vbr_start_checksum boot)
    × (vbr_start_checksum (finalized Endian.big map boot) ≡ vbr_start_checksum boot)
finalized-vbr_start_checksum_example = finalized-vbr_start_checksum Endian.big map boot

finalized-IsPercent_example :
    IsPercent (used_count Endian.big map.chunk 10) 10 (get_or (finalized Endian.big map boot) 112 0)
finalized-IsPercent_example =
    finalized-IsPercent Endian.big map boot (omega arith) refl (omega arith) (omega arith) refl
