-- ===== src/Mount.antt =====
-- Mounting a volume: libexfat/mount.c, from the boot sector to the root directory, and the repair of
-- the boot checksum of libexfat/repair.c. The super block is the list of the 512 bytes of
-- `struct exfat_super_block`. The state is the store of the device; `exfat_fsync` is the platform's.
pub mod Verify
pub mod Summed
pub mod Root
pub mod State
mod Examples
use exfat.Prelude.{
  ℕ, zero, suc, ◌+◌, ◌-◌, ◌*◌, ◌/◌, ◌%◌, ◌^◌, bit_and, bit_or, Bool, true, false, not, ◌&&◌, ◌||◌,
  Option, none, some, List, [], ◌∷◌, ◌++◌, ◌==◌, ltb, leb, take, drop, get_or, set, if◌then◌else◌,
}
use exfat.Prelude.Int.{pos}
use exfat.Prelude.Effect.{
  Rc, eio, Outcome, bug, failed, done, Op, ◌>>=◌, ◌>>◌, pure, raise, raise_if, or_stop, branch,
  attempt,
}
use exfat.Bitmap.{Endian, Cmap, count_free_clusters, cluster_end, u32}
use exfat.Checksum.{vbr_start_checksum, vbr_add_checksum}
use exfat.Dirent.{Node, allocate_node, attrib_dir, field, put}
use exfat.Partition.{has_boot_sector}
use exfat.Chain.{Device, SuperBlock, Exfat, next_cluster, sb_cluster_size, sb_cluster_invalid}

abbrev pub state_mounted : ℕ
state_mounted = 2

abbrev pub super_block : List ℕ → SuperBlock
super_block bytes = record {
  fat_sector_start = field 4 bytes 80;
  cluster_sector_start = field 4 bytes 88;
  cluster_count = field 4 bytes 92;
  sector_bits = get_or bytes 108 0;
  spc_bits = get_or bytes 109 0;
}

abbrev pub rootdir_cluster : List ℕ → ℕ
rootdir_cluster bytes = field 4 bytes 96

-- A sector whose words all are the sum.
unfoldable pub sum_words : ℕ → ℕ → List ℕ
sum_words zero sum = []
sum_words (suc n) sum =
    sum % 256 ∷ sum / 256 % 256 ∷ sum / 65536 % 256 ∷ sum / 16777216 % 256 ∷ sum_words n sum

abbrev pub root_of : List ℕ → ℕ → Node
root_of sb size = record allocate_node {
  attrib = attrib_dir;
  start_cluster = rootdir_cluster sb;
  fptr_cluster = rootdir_cluster sb;
  valid_size = size;
  size = size;
  name = set allocate_node.name 0 0;
  references = 1;
}

-- The super block that is written when the volume is mounted.
abbrev pub soiled : List ℕ → List ℕ
soiled sb = put 2 sb 106 (bit_or (field 2 sb 106) state_mounted)

-- The percentage of the clusters in use, in 32-bit arithmetic.
abbrev pub percent : ℕ → ℕ → ℕ
percent free total = u32 (u32 (u32 (total + 2 ^ 32 - free) * 100) + total / 2) / total

-- The bit of the state is cleared by a mask of 16 bits.
abbrev pub clean : List ℕ → List ℕ
clean sb = put 2 sb 106 (bit_and (field 2 sb 106) 0xfffd)

abbrev pub finalized : Endian → Cmap → List ℕ → List ℕ
finalized e cmap sb =
    if get_or (clean sb) 112 0 == 0xff
    then clean sb
    else set (clean sb) 112 (percent (count_free_clusters e cmap) (field 4 sb 92) % 2 ^ 8)

module _ (D : Device) where
  unfoldable pub read_at : ℕ → ℕ → Op D.Store (List ℕ)
  read_at size offset dev = elim (D.pread dev size offset) [
    | none ↦ failed eio dev
    | some bytes ↦ done bytes dev
  ]

  unfoldable pub write_at : List ℕ → ℕ → Op D.Store (Unit {0})
  write_at bytes offset dev = elim (D.pwrite dev bytes offset) [
    | none ↦ failed eio dev
    | some dev' ↦ done tt dev'
  ]

  module _ (size : ℕ) (ask_to_fix : Bool) where
    unfoldable pub fix_invalid_vbr_checksum : ℕ → Op D.Store (List ℕ)
    fix_invalid_vbr_checksum sum = do
      write_at (sum_words (size / 4) sum) (11 * size)
      pure (sum_words (size / 4) sum)

    -- The words of the checksum sector, of which `n` are left.
    unfoldable pub check_words : ℕ → ℕ → ℕ → List ℕ → Op D.Store (Unit {0})
    check_words zero i sum sector = pure tt
    check_words (suc n) i sum sector =
        branch (λ dev. field 4 sector (4 * i) == sum) (check_words n (i + 1) sum sector)
          (branch (λ dev. ask_to_fix)
            (do fixed ← fix_invalid_vbr_checksum sum; check_words n (i + 1) sum fixed) (raise eio))

    -- The next sector: further on in the buffer that holds the whole region, or read into it.
    unfoldable pub next_sector : Bool → ℕ → List ℕ → Op D.Store (List ℕ)
    next_sector true i buffer = pure (drop size buffer)
    next_sector false i buffer = read_at size (i * size)

    -- The sectors from `i` on, of which `n` are summed before the last one is checked.
    unfoldable pub sum_sectors : ℕ → Bool → ℕ → List ℕ → ℕ → Op D.Store (Unit {0})
    sum_sectors zero whole i buffer sum = do
      sector ← next_sector whole i buffer
      check_words (size / 4) 0 sum (take size sector)
    sum_sectors (suc n) whole i buffer sum = do
      sector ← next_sector whole i buffer
      sum_sectors n whole (i + 1) sector (vbr_add_checksum (take size sector) sum)

    -- `whole` is whether the buffer, of the size of a cluster, has room for the twelve sectors.
    unfoldable pub verify_vbr_checksum : Bool → Op D.Store (Unit {0})
    verify_vbr_checksum whole = do
      buffer ← read_at (if whole then 12 * size else size) 0
      sum_sectors 10 whole 1 buffer (vbr_start_checksum (take size buffer))

  -- `n` is how many more clusters the directory may have; 0 stands for an error, as in the source.
  unfoldable pub rootdir_from : Exfat D → Node → ℕ → ℕ → ℕ → Option ℕ
  rootdir_from ef root zero clusters cluster = some 0
  rootdir_from ef root (suc n) clusters cluster =
      if sb_cluster_invalid ef.sb cluster then some 0 else elim (next_cluster D ef root cluster) [
        | none ↦ none
        | some next ↦
            if next == cluster_end
            then some ((clusters + 1) * sb_cluster_size ef.sb % 2 ^ 64)
            else rootdir_from ef root n (clusters + 1) next
      ]

  unfoldable pub rootdir_size : Exfat D → Node → Option ℕ
  rootdir_size ef root = rootdir_from ef root ef.sb.cluster_count 0 root.start_cluster

  -- A volume before its bitmap is found.
  abbrev pub bare : List ℕ → D.Store → Exfat D
  bare sb dev = record {
    dev = dev;
    sb = super_block sb;
    cmap = record { start_cluster = 0; size = 0; chunk = []; chunk_size = 0; dirty = false };
  }

  unfoldable pub root_bytes : List ℕ → Op D.Store ℕ
  root_bytes sb = or_stop λ dev. rootdir_size (bare sb dev) (root_of sb 0)

  unfoldable pub commit_super_block : List ℕ → Op D.Store (Unit {0})
  commit_super_block sb = write_at sb 0

  unfoldable pub soil_super_block : Bool → List ℕ → Op D.Store (List ℕ)
  soil_super_block ro sb =
      if ro then pure sb else (do commit_super_block (soiled sb); pure (soiled sb))

  -- From the read of the boot sector to the size of the root directory; `dev_size` is
  -- `exfat_get_size`. A file system that is larger than its device only warns.
  unfoldable pub open_volume : ℕ → Bool → Op D.Store (List ℕ × Node)
  open_volume dev_size ask_to_fix = do
    sb ← read_at 512 0
    raise_if eio λ dev. not (has_boot_sector sb)
    raise_if eio λ dev. ltb (super_block sb).sector_bits 9
    raise_if eio λ dev. ltb 25 ((super_block sb).sector_bits + (super_block sb).spc_bits)
    let size = 2 ^ (super_block sb).sector_bits
    verify_vbr_checksum size ask_to_fix (leb (12 * size) (sb_cluster_size (super_block sb)))
    raise_if eio λ dev. not (get_or sb 105 0 == 1) || not (get_or sb 104 0 == 0)
    raise_if eio λ dev. not (get_or sb 110 0 == 1)
    raise_if eio
        λ dev. ltb dev_size ((super_block sb).cluster_count * sb_cluster_size (super_block sb))
    root_size ← root_bytes sb
    raise_if eio λ dev. root_size == 0
    pure (sb, root_of sb root_size)

  -- The end of `exfat_unmount`: the result of the write is dropped.
  unfoldable pub finalize_super_block : Endian → Bool → Cmap → List ℕ → Op D.Store (Unit {0})
  finalize_super_block e ro cmap sb =
      if ro then pure tt else attempt (commit_super_block (finalized e cmap sb))
