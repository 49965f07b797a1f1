-- ===== src/Chain/Space.antt =====
-- Growing a file takes what it asks for from the free space.
use exfat.Prelude.{ℕ, ◌-◌, ◌^◌, ◌<◌, ◌≡◌, ◌≢◌, false, some, List}
use exfat.Prelude.Effect.Holds.{Holds}
use exfat.Prelude.Effect.Succeeds.{Succeeds}
use exfat.Bitmap.{Endian, count_free_clusters, cluster_free}
use exfat.Bitmap.Allocate.{IsCmap}
use exfat.Chain.{Device, File, sb_cluster_invalid}
use exfat.Chain.Pointer.{IsPointer, Walk}

-- No write to the device fails.
abbrev pub AlwaysWrites : Device → Type 0
AlwaysWrites D =
    (t : D.Store) (bytes : List ℕ) (offset : ℕ)
    → (t' : D.Store) × (D.pwrite t bytes offset ≡ some t')

module _ (D : Device) (e : Endian) where
  -- The map is valid, fits the super block, and has `k` free clusters.
  pub record IsSpace (k : ℕ) (s : File D) : Type 0 where
    pub valid : IsCmap e s.ef.cmap
    pub free : count_free_clusters e s.ef.cmap ≡ k
    pub fits : s.ef.sb.cluster_count ≡ s.ef.cmap.size

-- A file that can grow: an empty one, or one of `current` clusters with its pointer right, whose
-- chain leads to a valid last cluster.
pub data IsGrowable (D : Device) (current : ℕ) (s : File D) : Type 0 where
  empty : s.node.start_cluster ≡ cluster_free → s.node.fptr_index ≡ 0 → IsGrowable D current s
  chained :
      (last : ℕ)
      → s.node.start_cluster ≢ cluster_free
      → 0 < current
      → current < 2 ^ 32
      → IsPointer D s.ef s.node
      → Walk D s.ef s.node s.node.start_cluster (current - 1) last
      → sb_cluster_invalid s.ef.sb last ≡ false
      → IsGrowable D current s
