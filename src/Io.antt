-- ===== src/Io.antt =====
-- Reading and writing files: `exfat_generic_pread` and `exfat_generic_pwrite` of libexfat/io.c, over
-- the chains of Chain. The calls of the platform under them are the interface Device. A buffer is the
-- list of the bytes that were stored in it from its start; `now` is `time(NULL)`.
pub mod Reads
pub mod Pread
pub mod Contiguous
pub mod Writes
pub mod Examples
use exfat.Prelude.{
  ℕ, zero, suc, ◌+◌, ◌-◌, ◌/◌, ◌%◌, ◌^◌, min, max, bit_and, Bool, true, false, not, ◌&&◌, ◌||◌,
  none, some, List, [], ◌++◌, ◌==◌, ltb, leb, take, drop, length, replicate,
}
use exfat.Prelude.Int.{ℤ, pos, negsuc}
use exfat.Prelude.Effect.{
  eio, einval, Op, ◌>>=◌, ◌>>◌, Outcome, bug, failed, done, pure, raise, stop, gets, or_stop,
  stop_if, branch,
}
use exfat.Bitmap.{Endian, u32}
use exfat.Dirent.{Node, attrib_dir}
use exfat.Chain.{Device, File, next_cluster, sb_cluster_size, c2o}
use exfat.Chain.Resize.{check_cluster, following, seek, update, truncate}

abbrev pub u64 : ℕ → ℕ
u64 n = n % 2 ^ 64

abbrev pub is_dir : Node → Bool
is_dir node = not (bit_and node.attrib attrib_dir == 0)

abbrev pub update_atime : ℤ → Node → Node
update_atime now node = record node { atime = now; is_dirty = true }

abbrev pub update_mtime : ℤ → Node → Node
update_mtime now node = record node { mtime = now; is_dirty = true }

module _ (D : Device) where
  unfoldable pub read_raw : ℕ → ℕ → Op (File D) (List ℕ)
  read_raw size offset s = elim (D.pread s.ef.dev size offset) [
    | none ↦ failed eio s
    | some bytes ↦ done bytes s
  ]

  unfoldable pub write_raw : List ℕ → ℕ → Op (File D) (Unit {0})
  write_raw bytes offset s = elim (D.pwrite s.ef.dev bytes offset) [
    | none ↦ failed eio s
    | some dev ↦ done tt (record s { ef = record s.ef { dev = dev } })
  ]

  -- The loop over the clusters, on fuel: each round reads a byte at least.
  unfoldable pub read_clusters : ℕ → ℕ → ℕ → ℕ → ℕ → Op (File D) (List ℕ)
  read_clusters zero cs loffset remainder cluster = branch (λ s. remainder == 0) (pure []) stop
  read_clusters (suc n) cs loffset remainder cluster =
      branch (λ s. remainder == 0) (pure [])
        (do
          check_cluster D cluster
          offset ← or_stop λ s. c2o s.ef.sb cluster
          bytes ← read_raw (min (cs - loffset) remainder) (offset + loffset)
          next ← following D cluster
          rest ← read_clusters n cs 0 (remainder - min (cs - loffset) remainder) next
          pure (bytes ++ rest))

  -- The part of a read that lies within the valid size: what it returns, and the buffer.
  unfoldable pub read_valid : Bool → ℤ → ℕ → ℕ → Op (File D) (ℕ × List ℕ)
  read_valid atime now size offset = do
    cs ← gets λ s. sb_cluster_size s.ef.sb
    cluster ← seek D (u32 (offset / cs))
    check_cluster D cluster
    remainder ← gets λ s. min size (s.node.size - offset)
    bytes ← read_clusters remainder cs (offset % cs) remainder cluster
    branch (λ s. not (is_dir s.node) && atime) (update D (update_atime now)) (pure tt)
    pure (remainder, bytes)

  -- The zeros after the bytes that were read.
  unfoldable pub fill : ℕ → ℕ → ℕ × List ℕ → Op (File D) (ℕ × List ℕ)
  fill size offset part = gets λ s. (
    min size (s.node.size - offset),
    part.1 ++ replicate (min (size - part.0) (s.node.size - s.node.valid_size)) 0,
  )

  -- A short read is returned as it is.
  unfoldable pub fill_rest : ℕ → ℕ → ℕ × List ℕ → Op (File D) (ℕ × List ℕ)
  fill_rest size offset part =
      branch (λ s. ltb part.0 (s.node.valid_size - offset)) (pure part) (fill size offset part)

  -- A read across the valid size; `again` is the call of the function itself.
  unfoldable pub read_across : (ℕ → ℕ → Op (File D) (ℕ × List ℕ)) → ℕ → ℕ → Op (File D) (ℕ × List ℕ)
  read_across again size offset =
      branch (λ s. ltb offset s.node.valid_size)
        (do
          valid ← gets λ s. s.node.valid_size - offset
          part ← again valid offset
          fill_rest size offset part)
        (fill size offset (0, []))

  unfoldable pub read_body :
      (ℕ → ℕ → Op (File D) (ℕ × List ℕ)) → Bool → ℤ → ℕ → ℕ → Op (File D) (ℕ × List ℕ)
  read_body again atime now size offset =
      branch (λ s. leb s.node.size offset || size == 0) (pure (0, []))
        (branch (λ s. ltb s.node.valid_size (u64 (offset + size))) (read_across again size offset)
          (read_valid atime now size offset))

  -- The call within reads up to the valid size, so that it makes no further one. `atime` is
  -- `!ef->ro && !ef->noatime`.
  unfoldable pub generic_pread : Bool → ℤ → ℕ → ℤ → Op (File D) (ℕ × List ℕ)
  generic_pread atime now size (pos offset) =
      read_body (read_body (λ n o. stop) atime now) atime now size offset
  generic_pread atime now size (negsuc n) = raise einval

  -- The loop over the clusters, on fuel: each round writes a byte at least. `end` is where the whole
  -- write ends.
  unfoldable pub write_clusters : ℕ → ℕ → ℕ → ℕ → List ℕ → ℕ → Op (File D) (Unit {0})
  write_clusters zero cs end loffset bytes cluster = branch (λ s. length bytes == 0) (pure tt) stop
  write_clusters (suc n) cs end loffset bytes cluster =
      branch (λ s. length bytes == 0) (pure tt)
        (do
          let lsize = min (cs - loffset) (length bytes)
          check_cluster D cluster
          offset ← or_stop λ s. c2o s.ef.sb cluster
          write_raw (take lsize bytes) (offset + loffset)
          update D λ node. record node {
            valid_size = max node.valid_size (u64 (end - (length bytes - lsize)));
          }
          next ← following D cluster
          write_clusters n cs end 0 (drop lsize bytes) next)

  unfoldable pub write_chain : ℤ → List ℕ → ℕ → Op (File D) ℕ
  write_chain now bytes offset = do
    cs ← gets λ s. sb_cluster_size s.ef.sb
    cluster ← seek D (u32 (offset / cs))
    check_cluster D cluster
    write_clusters (length bytes) cs (offset + length bytes) (offset % cs) bytes cluster
    branch (λ s. is_dir s.node) (pure tt) (update D (update_mtime now))
    pure (length bytes)

  module _ (e : Endian) where
    -- A write past the end first erases up to its start, then makes room for itself.
    unfoldable pub make_room : Bool → ℤ → ℕ → ℕ → Op (File D) (Unit {0})
    make_room attached now size offset = do
      branch (λ s. ltb s.node.size offset) (truncate D e attached now offset true) (pure tt)
      branch (λ s. ltb s.node.size (u64 (offset + size)))
          (truncate D e attached now (u64 (offset + size)) false) (pure tt)

    unfoldable pub generic_pwrite : Bool → ℤ → List ℕ → ℤ → Op (File D) ℕ
    generic_pwrite attached now bytes (pos offset) = do
      make_room attached now (length bytes) offset
      branch (λ s. length bytes == 0) (pure 0) (write_chain now bytes offset)
    generic_pwrite attached now bytes (negsuc n) = raise einval
