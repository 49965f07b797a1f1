-- ===== src/Chain.antt =====
-- Cluster chains: libexfat/cluster.c, over the node of Dirent and the bitmap of Bitmap. `none` is
-- `exfat_bug`, which stops the program. The block device is an interface: `exfat_pread` and
-- `exfat_pwrite` of libexfat/io.c call the platform's; `none` stands for their negative result.
pub mod Offsets
pub mod Pointer
pub mod Resize
pub mod Sizes
pub mod Truncate
pub mod Space
mod Examples
use exfat.Prelude.{
  ℕ, zero, suc, ◌+◌, ◌-◌, ◌*◌, ◌/◌, ◌%◌, ◌^◌, min, bit_or, Bool, true, false, not, ◌&&◌, ◌||◌,
  Option, none, some, List, [], ◌∷◌, ◌==◌, ltb, leb, if◌then◌else◌, replicate,
}
use exfat.Prelude.Int.{ℤ}
use exfat.Bitmap.{
  Endian, Cmap, allocate_cluster, free_cluster, cluster_free, cluster_bad, cluster_end,
  first_data_cluster, u32,
}
use exfat.Dirent.{Node, field, put}

pub record Device : Type 1 where
  pub Store : Type 0
  pub pread : Store → ℕ → ℕ → Option (List ℕ)
  pub pwrite : Store → List ℕ → ℕ → Option Store

-- The fields of `struct exfat_super_block` that the chains use.
pub record SuperBlock : Type 0 where
  pub fat_sector_start : ℕ
  pub cluster_sector_start : ℕ
  pub cluster_count : ℕ
  pub sector_bits : ℕ
  pub spc_bits : ℕ

abbrev pub sb_cluster_size : SuperBlock → ℕ
sb_cluster_size sb = 2 ^ sb.sector_bits * 2 ^ sb.spc_bits

abbrev pub sb_cluster_invalid : SuperBlock → ℕ → Bool
sb_cluster_invalid sb c = ltb c first_data_cluster || leb sb.cluster_count (c - first_data_cluster)

abbrev pub s2o : SuperBlock → ℕ → ℕ
s2o sb sector = sector * 2 ^ sb.sector_bits

unfoldable pub c2s : SuperBlock → ℕ → Option ℕ
c2s sb cluster =
    if ltb cluster first_data_cluster
    then none
    else some (sb.cluster_sector_start + (cluster - first_data_cluster) * 2 ^ sb.spc_bits)

unfoldable pub c2o : SuperBlock → ℕ → Option ℕ
unfolding c2s
c2o sb cluster = elim (c2s sb cluster) [ none ↦ none | some sector ↦ some (s2o sb sector) ]

-- For a sector of the clusters heap.
unfoldable pub s2c : SuperBlock → ℕ → ℕ
s2c sb sector = u32 ((sector - sb.cluster_sector_start) / 2 ^ sb.spc_bits + first_data_cluster)

unfoldable pub bytes2clusters : SuperBlock → ℕ → ℕ
bytes2clusters sb bytes = u32 ((bytes + sb_cluster_size sb - 1) % 2 ^ 64 / sb_cluster_size sb)

abbrev pub fat_offset : SuperBlock → ℕ → ℕ
fat_offset sb cluster = s2o sb sb.fat_sector_start + cluster * 4

module _ (D : Device) where
  pub record Exfat : Type 0 where
    pub dev : D.Store
    pub sb : SuperBlock
    pub cmap : Cmap

  -- The volume and the node that an operation changes.
  pub record File : Type 0 where
    pub ef : Exfat
    pub node : Node

  unfoldable pub next_cluster : Exfat → Node → ℕ → Option ℕ
  next_cluster ef node cluster =
      if ltb cluster first_data_cluster
      then none
      else if node.is_contiguous
      then some (u32 (cluster + 1))
      else elim (D.pread ef.dev 4 (fat_offset ef.sb cluster)) [
        | none ↦ some cluster_bad
        | some bytes ↦ some (field 4 bytes 0)
      ]

  -- `n` steps along the chain, or up to the first invalid cluster.
  unfoldable pub advance : Exfat → Node → ℕ → ℕ → Option ℕ
  unfolding next_cluster
  advance ef node zero cluster = some cluster
  advance ef node (suc n) cluster = elim (next_cluster ef node cluster) [
    | none ↦ none
    | some next ↦ if sb_cluster_invalid ef.sb next then some next else advance ef node n next
  ]

  unfoldable pub advance_cluster : Exfat → Node → ℕ → Option (ℕ × Node)
  unfolding advance
  advance_cluster ef node count =
      let rewind = ltb count node.fptr_index in
      let index = if rewind then 0 else node.fptr_index in
      let from = if rewind then node.start_cluster else node.fptr_cluster in
      elim (advance ef node (count - index) from) [
        | none ↦ none
        | some cluster ↦ some (cluster, record node { fptr_index = count; fptr_cluster = cluster })
      ]
