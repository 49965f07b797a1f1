-- ===== src/Io/Contiguous.antt =====
-- Reading a contiguous file: the loop over its clusters is one read of the device.
use exfat.Prelude.{ℕ, ◌+◌, ◌-◌, ◌*◌, ◌^◌, ◌≤◌, ◌<◌, ◌≡◌, true, some, List, ◌++◌}
use exfat.Chain.{Device, SuperBlock, File, sb_cluster_size, s2o}

-- A read of the device can be cut in two.
abbrev pub IsFlat : Device → Type 0
IsFlat D =
    (t : D.Store) (a b offset : ℕ) (bytes : List ℕ)
    → D.pread t (a + b) offset ≡ some bytes
    → (x : List ℕ) × (y : List ℕ) × (D.pread t a offset ≡ some x)
      × (D.pread t b (offset + a) ≡ some y)
      × (bytes ≡ x ++ y)

-- Where a cluster starts on the device.
abbrev pub heap_at : SuperBlock → ℕ → ℕ
heap_at sb cluster = s2o sb (sb.cluster_sector_start + (cluster - 2) * 2 ^ sb.spc_bits)

-- The place of a byte of the heap, counted from the start of a cluster.
abbrev pub place : SuperBlock → ℕ → ℕ → ℕ
place sb cluster offset = heap_at sb cluster + offset

-- A contiguous file of `k` clusters whose pointer is right, in a heap that holds it.
pub record IsRun (D : Device) (k : ℕ) (s : File D) : Type 0 where
  pub contiguous : s.node.is_contiguous ≡ true
  pub few : s.ef.sb.cluster_count + 2 < 2 ^ 32
  pub start : 2 ≤ s.node.start_cluster
  pub inside : s.node.start_cluster + k ≤ s.ef.sb.cluster_count + 2
  pub pointer : s.node.fptr_cluster ≡ s.node.start_cluster + s.node.fptr_index
  pub pointer_inside : s.node.fptr_cluster < s.ef.sb.cluster_count + 2
  pub long : s.node.size ≤ k * sb_cluster_size s.ef.sb
  pub ordered : s.node.valid_size ≤ s.node.size

-- The file after its pointer has moved.
abbrev pointed : {D : Device} → File D → ℕ → File D
pointed s count = record s {
  node = record s.node { fptr_index = count; fptr_cluster = s.node.start_cluster + count };
}
