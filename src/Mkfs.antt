-- ===== src/Mkfs.antt =====
-- Formatting: the layout of mkfs/mkexfat.c and of its objects in mkfs/vbr.c, fat.c, cbm.c, uct.c and
-- rootdir.c, under the parameters of mkfs/main.c. The upper case table of mkfs/uctc.c is data, of
-- which the layout uses the size. A volume that ends before its heap begins is not modelled:
-- `check_size` refuses it.
pub mod Rounding
pub mod Layout
pub mod Heap
pub mod Fat
mod Examples
use exfat.Prelude.{
  ℕ, zero, suc, ◌+◌, ◌-◌, ◌*◌, ◌/◌, ◌%◌, ◌^◌, max, Bool, true, false, Option, none, some, List, [],
  ◌∷◌, ◌++◌, ltb, ◌==◌, leb, if◌then◌else◌, replicate, get_or,
}
use exfat.Bitmap.{
  Endian, bmap_set, bmap_size, word_bytes, div_round_up, round_up, u32, first_data_cluster,
  cluster_end,
}
use exfat.Dirent.{put}

abbrev pub last_data_cluster : ℕ
last_data_cluster = 0xfffffff6

pub record Param : Type 0 where
  pub sector_bits : ℕ
  pub spc_bits : ℕ
  pub volume_size : ℕ
  pub volume_serial : ℕ
  pub first_sector : ℕ
  pub upcase_size : ℕ

abbrev pub get_sector_size : Param → ℕ
get_sector_size p = 2 ^ p.sector_bits

abbrev pub get_cluster_size : Param → ℕ
get_cluster_size p = 2 ^ p.sector_bits * 2 ^ p.spc_bits

-- An object's `get_alignment` and `get_size`.
pub record FsObject : Type 0 where
  pub alignment : ℕ
  pub size : ℕ

-- Where the objects end, from a position on.
unfoldable pub end_position : ℕ → List FsObject → ℕ
end_position position [] = position
end_position position (object ∷ objects) =
    end_position (round_up position object.alignment + object.size) objects

-- The position of the object `i`; there is no object behind the last, which aborts.
unfoldable pub position_from : ℕ → List FsObject → ℕ → Option ℕ
position_from position [] i = none
position_from position (object ∷ objects) zero = some (round_up position object.alignment)
position_from position (object ∷ objects) (suc i) =
    position_from (round_up position object.alignment + object.size) objects i

abbrev pub vbr : Param → FsObject
vbr p = record { alignment = get_sector_size p; size = 12 * get_sector_size p }

abbrev pub fat : Param → FsObject
fat p = record {
  alignment = 128 * get_sector_size p;
  size = p.volume_size / get_cluster_size p * 4;
}

-- `get_position(&cbm)`, by the objects before it.
unfoldable pub heap_position : Param → ℕ
unfolding end_position
heap_position p = round_up (end_position 0 (vbr p ∷ vbr p ∷ fat p ∷ [])) (get_cluster_size p)

abbrev pub cbm : Param → FsObject
cbm p = record {
  alignment = get_cluster_size p;
  size = div_round_up ((p.volume_size - heap_position p) / get_cluster_size p) 8;
}

abbrev pub uct : Param → FsObject
uct p = record { alignment = get_cluster_size p; size = p.upcase_size }

abbrev pub rootdir : Param → FsObject
rootdir p = record { alignment = get_cluster_size p; size = get_cluster_size p }

abbrev pub objects : Param → List FsObject
objects p = vbr p ∷ vbr p ∷ fat p ∷ cbm p ∷ uct p ∷ rootdir p ∷ []

-- Whether the objects fit.
unfoldable pub check_size : Param → Bool
unfolding end_position
check_size p = leb (end_position 0 (objects p)) p.volume_size

abbrev pub uct_position : Param → ℕ
uct_position p = round_up (heap_position p + (cbm p).size) (get_cluster_size p)

abbrev pub rootdir_position : Param → ℕ
rootdir_position p = round_up (uct_position p + p.upcase_size) (get_cluster_size p)

abbrev pub cluster_at : Param → ℕ → ℕ
cluster_at p position = (position - heap_position p) / get_cluster_size p + first_data_cluster

-- The fields of the super block that `init_sb` computes.
pub record Geometry : Type 0 where
  pub sector_count : ℕ
  pub fat_sector_start : ℕ
  pub fat_sector_count : ℕ
  pub cluster_sector_start : ℕ
  pub cluster_count : ℕ
  pub rootdir_cluster : ℕ

unfoldable pub init_sb : Param → Geometry
init_sb p =
    let clusters_max = u32 (p.volume_size / get_cluster_size p) in
    let fat_sectors = div_round_up (clusters_max * 4) (get_sector_size p) in
    let fat_start = (fat p).alignment / get_sector_size p in
    let fat_count = round_up (fat_start + fat_sectors) (2 ^ p.spc_bits) - fat_start in
    record {
      sector_count = p.volume_size / get_sector_size p;
      fat_sector_start = fat_start;
      fat_sector_count = fat_count;
      cluster_sector_start = heap_position p / get_sector_size p;
      cluster_count = clusters_max - (fat_start + fat_count) / 2 ^ p.spc_bits;
      rootdir_cluster = cluster_at p (rootdir_position p);
    }

-- `n` entries that link the clusters from `cluster` on, the last of them to the end of the chain.
unfoldable pub fat_run : ℕ → ℕ → List ℕ
fat_run zero cluster = cluster_end ∷ []
fat_run (suc n) cluster = (cluster + 1) ∷ fat_run n (cluster + 1)

-- The entries for an object, and the cluster after it; one entry at least is written.
unfoldable pub fat_write_entries : Param → ℕ → ℕ → List ℕ × ℕ
unfolding fat_run
fat_write_entries p cluster length =
    let n = div_round_up length (get_cluster_size p) - 1 in (fat_run n cluster, cluster + n + 1)

-- The entries of the table, for a device that accepts the writes.
unfoldable pub fat_write : Param → List ℕ
unfolding fat_write_entries
fat_write p =
    let cbm_run = fat_write_entries p 2 (cbm p).size in
    let uct_run = fat_write_entries p cbm_run.1 (uct p).size in
    let rootdir_run = fat_write_entries p uct_run.1 (rootdir p).size in
    0xfffffff8 ∷ 0xffffffff ∷ (cbm_run.0 ++ (uct_run.0 ++ rootdir_run.0))

abbrev pub allocated_clusters : Param → ℕ
allocated_clusters p =
    div_round_up (cbm p).size (get_cluster_size p)
    + div_round_up (uct p).size (get_cluster_size p)
    + div_round_up (rootdir p).size (get_cluster_size p)

-- The bits from `i` on, of which `n` are left; only the first `allocated` are set.
unfoldable pub set_bits : Endian → ℕ → ℕ → ℕ → List ℕ → List ℕ
unfolding bmap_set
set_bits e allocated zero i bitmap = bitmap
set_bits e allocated (suc n) i bitmap =
    set_bits e allocated n (i + 1) (if ltb i allocated then bmap_set e bitmap i else bitmap)

unfoldable pub cbm_write : Endian → Param → List ℕ
unfolding set_bits bmap_size
cbm_write e p =
    let bitmap_size = round_up (allocated_clusters p) 8 in
    set_bits e (allocated_clusters p) bitmap_size 0
      (replicate (bmap_size e bitmap_size / word_bytes e) 0)

-- The first `i` from `i` on that is large enough, with `n` tries.
unfoldable pub first_fit : ℕ → ℕ → ℕ → ℕ → Option ℕ
first_fit sector_bits volume_size zero i = none
first_fit sector_bits volume_size (suc n) i =
    let rest = first_fit sector_bits volume_size n (i + 1) in
    if leb (div_round_up volume_size (2 ^ i)) last_data_cluster
    then some (i - sector_bits)
    else rest

-- `user_defined` is none for -1, and `none` is the error. `1 << i` is an `int`: it has no value from
-- `i` = 31 on, which is none too.
unfoldable pub setup_spc_bits : ℕ → Option ℕ → ℕ → Option ℕ
unfolding first_fit
setup_spc_bits sector_bits (some user_defined) volume_size =
    if ltb last_data_cluster (volume_size / (2 ^ sector_bits * 2 ^ user_defined))
    then none
    else some user_defined
setup_spc_bits sector_bits none volume_size =
    if ltb volume_size (256 * 1024 * 1024)
    then some (12 - sector_bits)
    else if ltb volume_size (32 * 1024 * 1024 * 1024)
    then some (15 - sector_bits)
    else first_fit sector_bits volume_size 14 17

-- The shifts `1 << i` of an `int` from `i` on.
unfoldable pub log_from : ℕ → ℕ → ℕ → Option ℕ
log_from zero i n = none
log_from (suc k) i n = let rest = log_from k (i + 1) n in if 2 ^ i == n then some i else rest

unfoldable pub logarithm2 : ℕ → Option ℕ
unfolding log_from
logarithm2 n = log_from 31 0 n
