-- ===== src/Bitmap/Examples.antt =====
-- The bitmap on a small map: ten clusters in bytes, the first three of them in use.
use exfat.Prelude.{
  ℕ, ◌+◌, ◌≤◌, ◌≡◌, ◌≢◌, ◌⊎◌, refl, true, false, some, List, [], ◌∷◌, ◌==◌, if◌then◌else◌, arith,
}
use exfat.Bitmap.{
  Endian, Cmap, cluster_end, first_data_cluster, find_bit_and_set, allocate_cluster, free_cluster,
  count_free_clusters,
}
use exfat.Bitmap.Search.{Outcome, find_bit_and_set-Outcome}
use exfat.Bitmap.Allocate.{IsCmap, in_use, Allocation, allocate_cluster-Taken, free_cluster-in_use}
use exfat.Bitmap.Count.{
  used_count, count_free_clusters-used_count, count_free_clusters-allocate_cluster,
}

abbrev bytes : List ℕ
bytes = 0x07 ∷ 0x00 ∷ []

abbrev small_map : Cmap
small_map = record { start_cluster = 2; size = 10; chunk = bytes; chunk_size = 10; dirty = false }

small_map-IsCmap : IsCmap Endian.big small_map
small_map-IsCmap = record { covers = omega arith; whole = refl; fits = omega arith }

find_bit_and_set-Outcome_example :
    Outcome Endian.big bytes 1 10 (find_bit_and_set Endian.big bytes 1 10)
find_bit_and_set-Outcome_example = find_bit_and_set-Outcome Endian.big bytes 1 10

first_free : (find_bit_and_set Endian.big bytes 1 10).0 ≡ 5
unfolding find_bit_and_set
first_free = refl

allocate_cluster-Taken_example :
    Allocation Endian.big small_map (allocate_cluster Endian.big small_map 3)
allocate_cluster-Taken_example = allocate_cluster-Taken Endian.big small_map small_map-IsCmap 3

free_cluster-in_use_example :
    (m' : Cmap) × (free_cluster Endian.big small_map 3 ≡ some m')
    × IsCmap Endian.big m'
    × (m'.dirty ≡ true)
    × ((d : ℕ)
        → first_data_cluster ≤ d
        → in_use Endian.big m' d ≡ (if 3 == d then false else in_use Endian.big small_map d))
free_cluster-in_use_example =
    free_cluster-in_use Endian.big small_map 3 small_map-IsCmap (omega arith) (omega arith)

count_free_clusters-used_count_example :
    count_free_clusters Endian.big small_map + used_count Endian.big bytes 10 ≡ 10
count_free_clusters-used_count_example =
    count_free_clusters-used_count Endian.big small_map (omega arith)

count_free_clusters-allocate_cluster_example :
    ((allocate_cluster Endian.big small_map 3).0 ≢ cluster_end
      × (count_free_clusters Endian.big (allocate_cluster Endian.big small_map 3).1 + 1
          ≡ count_free_clusters Endian.big small_map))
    ⊎ ((allocate_cluster Endian.big small_map 3).0 ≡ cluster_end
        × (count_free_clusters Endian.big small_map ≡ 0)
        × ((allocate_cluster Endian.big small_map 3).1 ≡ small_map))
count_free_clusters-allocate_cluster_example =
    count_free_clusters-allocate_cluster Endian.big small_map 3 small_map-IsCmap
