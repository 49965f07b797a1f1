-- ===== src/Chain/Resize.antt =====
-- Growing, shrinking and erasing chains, and `exfat_truncate`: libexfat/cluster.c. The functions there
-- that return false are followed by `return -EIO` in each caller; here they end in that error.
use exfat.Prelude.{
  ℕ, zero, suc, ◌+◌, ◌-◌, ◌/◌, ◌%◌, ◌^◌, min, bit_or, Bool, true, false, not, ◌&&◌, ◌||◌, none,
  some, ◌==◌, ltb, leb, replicate,
}
use exfat.Prelude.Int.{ℤ}
use exfat.Prelude.Effect.{
  eio, enospc, bug, failed, done, Op, ◌>>=◌, ◌>>◌, pure, raise, gets, or_stop, modify, raise_if,
  stop_if, branch, attempt,
}
use exfat.Bitmap.{Endian, allocate_cluster, free_cluster, cluster_free, cluster_end, u32}
use exfat.Dirent.{Node, put}
use exfat.Chain.{
  Device, File, next_cluster, advance_cluster, sb_cluster_invalid, sb_cluster_size, c2o,
  bytes2clusters, fat_offset,
}

abbrev pub resized : ℕ → ℤ → Node → Node
resized size now node = record node { mtime = now; size = size; is_dirty = true }

abbrev pub rewound : Node → Node
rewound node = record node { fptr_index = 0; fptr_cluster = node.start_cluster }

module _ (D : Device) where
  abbrev pub check_cluster : ℕ → Op (File D) (Unit {0})
  check_cluster cluster = raise_if eio λ s. sb_cluster_invalid s.ef.sb cluster

  abbrev pub following : ℕ → Op (File D) ℕ
  following cluster = or_stop λ s. next_cluster D s.ef s.node cluster

  unfoldable pub seek : ℕ → Op (File D) ℕ
  seek count s = elim (advance_cluster D s.ef s.node count) [
    | none ↦ bug
    | some (cluster, node) ↦ done cluster (record s { node = node })
  ]

  abbrev pub update : (Node → Node) → Op (File D) (Unit {0})
  update f = modify λ s. record s { node = f s.node }

  unfoldable pub set_next_cluster : Bool → ℕ → ℕ → Op (File D) (Unit {0})
  set_next_cluster true current next s = done tt s
  set_next_cluster false current next s =
      elim (D.pwrite s.ef.dev (put 4 (replicate 4 0) 0 next) (fat_offset s.ef.sb current)) [
        | none ↦ failed eio s
        | some dev ↦ done tt (record s { ef = record s.ef { dev = dev } })
      ]

  unfoldable pub link : ℕ → ℕ → Op (File D) (Unit {0})
  link current next = do
    contiguous ← gets λ s. s.node.is_contiguous
    set_next_cluster contiguous current next

  -- The clusters `c`, `c + 1`, …, with `n` of them left.
  unfoldable pub link_run : ℕ → ℕ → Op (File D) (Unit {0})
  link_run zero c = pure tt
  link_run (suc n) c = do set_next_cluster false c (c + 1); link_run n (c + 1)

  abbrev pub make_noncontiguous : ℕ → ℕ → Op (File D) (Unit {0})
  make_noncontiguous first last = link_run (last - first) first

  module _ (e : Endian) where
    unfoldable pub release : ℕ → Op (File D) (Unit {0})
    release cluster s = elim (free_cluster e s.ef.cmap cluster) [
      | none ↦ bug
      | some cmap ↦ done tt (record s { ef = record s.ef { cmap = cmap } })
    ]

    unfoldable pub take_cluster : ℕ → Op (File D) ℕ
    take_cluster hint s =
        let (cluster, cmap) = allocate_cluster e s.ef.cmap hint in
        done cluster (record s { ef = record s.ef { cmap = cmap } })

    -- The loop that frees the clusters from `previous` on.
    unfoldable pub free_clusters : ℕ → ℕ → Op (File D) (Unit {0})
    free_clusters zero previous = pure tt
    free_clusters (suc n) previous = do
      check_cluster previous
      next ← following previous
      link previous cluster_free
      release previous
      free_clusters n next

    -- The first cluster that is cut off, with `count + 1` clusters kept.
    unfoldable pub crop : ℕ → Op (File D) ℕ
    crop count = do
      last ← seek count
      check_cluster last
      previous ← following last
      link last cluster_end
      pure previous

    unfoldable pub drop_all : Op (File D) ℕ
    drop_all = do
      previous ← gets λ s. s.node.start_cluster
      update λ node. record node { start_cluster = cluster_free; is_dirty = true }
      pure previous

    unfoldable pub shrink_file : ℕ → ℕ → Op (File D) (Unit {0})
    shrink_file current difference = do
      stop_if λ s. difference == 0 || s.node.start_cluster == cluster_free || ltb current difference
      previous ← branch (λ s. ltb difference current) (crop (current - difference - 1)) drop_all
      update rewound
      free_clusters difference previous

    -- The space has run out: what was taken is given back, whatever that returns.
    unfoldable pub out_of_space : ℕ → ℕ → Op (File D) (Unit {0})
    out_of_space current allocated = do
      branch (λ s. allocated == 0) (pure tt) (attempt (shrink_file (current + allocated) allocated))
      raise enospc

    -- The chain of a contiguous file is written when `next` does not follow `previous`.
    unfoldable pub write_run : ℕ → Op (File D) (Unit {0})
    write_run previous = do
      first ← gets λ s. s.node.start_cluster
      make_noncontiguous first previous
      update λ node. record node { is_contiguous = false; is_dirty = true }

    unfoldable pub split_run : ℕ → ℕ → Op (File D) (Unit {0})
    split_run previous next =
        branch (λ s. not (next == u32 (previous + 1)) && s.node.is_contiguous) (write_run previous)
          (pure tt)

    unfoldable pub grow : ℕ → ℕ → ℕ → ℕ → Op (File D) (Unit {0})
    grow zero current allocated previous = link previous cluster_end
    grow (suc n) current allocated previous = do
      next ← take_cluster (u32 (previous + 1))
      branch (λ s. sb_cluster_invalid s.ef.sb next) (out_of_space current allocated)
          (do split_run previous next; link previous next; grow n current (allocated + 1) next)

    unfoldable pub append : ℕ → ℕ → Op (File D) (Unit {0})
    append current difference = do
      previous ← seek (u32 (current + 2 ^ 32 - 1))
      check_cluster previous
      grow difference current 0 previous

    unfoldable pub begin_chain : ℕ → ℕ → Op (File D) (Unit {0})
    begin_chain current difference = do
      stop_if λ s. not (s.node.fptr_index == 0)
      first ← take_cluster 0
      raise_if enospc λ s. sb_cluster_invalid s.ef.sb first
      update
          λ node. record node { fptr_cluster = first; start_cluster = first; is_contiguous = true }
      grow (difference - 1) current 1 first

    unfoldable pub grow_file : ℕ → ℕ → Op (File D) (Unit {0})
    grow_file current difference = do
      stop_if λ s. difference == 0
      branch (λ s. not (s.node.start_cluster == cluster_free)) (append current difference)
          (begin_chain current difference)

    unfoldable pub erase_raw : ℕ → ℕ → Op (File D) (Unit {0})
    erase_raw size offset s = elim (D.pwrite s.ef.dev (replicate size 0) offset) [
      | none ↦ failed eio s
      | some dev ↦ done tt (record s { ef = record s.ef { dev = dev } })
    ]

    -- Whole clusters, of which `n` are left.
    unfoldable pub erase_clusters : ℕ → ℕ → Op (File D) (Unit {0})
    erase_clusters zero cluster = pure tt
    erase_clusters (suc n) cluster = do
      next ← following cluster
      stop_if λ s. sb_cluster_invalid s.ef.sb next
      offset ← or_stop λ s. c2o s.ef.sb next
      size ← gets λ s. sb_cluster_size s.ef.sb
      erase_raw size offset
      erase_clusters n next

    -- The first cluster, then the loop, which runs while the boundary is below `end`.
    unfoldable pub erase_from : ℕ → ℕ → ℕ → Op (File D) (Unit {0})
    erase_from size begin end = do
      let boundary = bit_or begin (size - 1) + 1
      cluster ← seek (begin / size)
      check_cluster cluster
      offset ← or_stop λ s. c2o s.ef.sb cluster
      erase_raw (min boundary end - begin) (offset + begin % size)
      erase_clusters ((end - boundary + size - 1) / size) cluster

    unfoldable pub erase_range : ℕ → ℕ → Op (File D) (Unit {0})
    erase_range begin end =
        branch (λ s. leb end begin) (pure tt)
          (do size ← gets λ s. sb_cluster_size s.ef.sb; erase_from size begin end)

    unfoldable pub resize_chain : ℕ → ℕ → Op (File D) (Unit {0})
    resize_chain c1 c2 =
        branch (λ s. ltb c1 c2) (grow_file c1 (c2 - c1))
          (branch (λ s. ltb c2 c1) (shrink_file c1 (c1 - c2)) (pure tt))

    unfoldable pub set_valid : ℕ → Bool → Op (File D) (Unit {0})
    set_valid size true = do
      valid_size ← gets λ s. s.node.valid_size
      erase_range valid_size size
      update λ node. record node { valid_size = size }
    set_valid size false = update λ node. record node { valid_size = min node.valid_size size }

    unfoldable pub resize : ℤ → ℕ → Bool → Op (File D) (Unit {0})
    resize now size erase = do
      c1 ← gets λ s. bytes2clusters s.ef.sb s.node.size
      c2 ← gets λ s. bytes2clusters s.ef.sb size
      resize_chain c1 c2
      set_valid size erase
      update (resized size now)

    -- `attached` is `node->parent != NULL`, `now` is `time(NULL)`.
    unfoldable pub truncate : Bool → ℤ → ℕ → Bool → Op (File D) (Unit {0})
    truncate attached now size erase = do
      stop_if λ s. s.node.references == 0 && attached
      branch (λ s. s.node.size == size) (pure tt) (resize now size erase)
