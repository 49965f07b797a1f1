-- ===== src/Mkfs/Examples.antt =====
-- Volumes of 64 MB and, for the edge of the table, of 2 GB.
use exfat.Prelude.{ℕ, ◌+◌, ◌*◌, ◌%◌, ◌≤◌, ◌<◌, ◌≡◌, refl, true, some, arith, ltb}
use exfat.Mkfs.{Param, objects, position_from, check_size, init_sb, heap_position, fat_write}
use exfat.Mkfs.Layout.{object_at, objects-IsPlaced}
use exfat.Mkfs.Heap.{IsGeometry, init_sb-IsGeometry}
use exfat.Mkfs.Fat.{IsTable, fat_write-IsTable}

abbrev card : Param
card = record {
  sector_bits = 9;
  spc_bits = 3;
  volume_size = 67108864;
  volume_serial = 1;
  first_sector = 0;
  upcase_size = 5836;
}

objects-IsPlaced_example :
    (position : ℕ) × (position_from 0 (objects card) 3 ≡ some position)
    × (position % (object_at (objects card) 3).alignment ≡ 0)
    × (position + (object_at (objects card) 3).size ≤ 67108864)
    × ((j later : ℕ)
        → 3 < j
        → position_from 0 (objects card) j ≡ some later
        → position + (object_at (objects card) 3).size ≤ later)
unfolding check_size heap_position
objects-IsPlaced_example = objects-IsPlaced card 3 refl (omega arith)

init_sb-IsGeometry_example : IsGeometry card (init_sb card)
unfolding heap_position
init_sb-IsGeometry_example = init_sb-IsGeometry card (omega arith) (omega arith)

fat_write-IsTable_example : IsTable card (fat_write card)
unfolding heap_position
fat_write-IsTable_example = fat_write-IsTable card (omega arith) (omega arith)

-- With clusters of 128 KB, exactly 2 GB leave the last cluster without an entry in the table.
abbrev two_gigabytes : Param
two_gigabytes = record {
  sector_bits = 9;
  spc_bits = 8;
  volume_size = 2147483648;
  volume_serial = 1;
  first_sector = 0;
  upcase_size = 5836;
}

last_entry_outside :
    ltb
      ((init_sb two_gigabytes).fat_sector_count * 512)
      (((init_sb two_gigabytes).cluster_count + 2) * 4)
    ≡ true
unfolding init_sb
last_entry_outside = refl
