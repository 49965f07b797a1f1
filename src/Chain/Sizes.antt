-- ===== src/Chain/Sizes.antt =====
-- What `exfat_truncate` leaves of the sizes of a file.
use exfat.Prelude.{
  ℕ, zero, suc, ◌+◌, ◌-◌, ◌≡◌, refl, ap, sym, ◌∙◌, Bool, true, false, Option, none, some, arith,
  ltb, replicate, if◌then◌else◌,
}
use mathlib.Core.Option.{some-injective}
use exfat.Prelude.Effect.Holds.{Holds}
use exfat.Prelude.Effect.Keeps.{Keeps, Keeps-modify, keeps}
use exfat.Prelude.Effect.{eio, bug, failed, done}
use exfat.Bitmap.{Endian, Cmap, allocate_cluster, free_cluster}
use exfat.Dirent.{Node, put}
use exfat.Chain.{Device, SuperBlock, Exfat, File, advance_cluster, advance, fat_offset}
use exfat.Chain.Resize.{
  seek, set_next_cluster, link, link_run, release, take_cluster, free_clusters, crop, drop_all,
  shrink_file, out_of_space, write_run, split_run, grow, update, append, begin_chain, grow_file,
  erase_raw, erase_clusters, erase_from, erase_range, resize_chain,
}

-- The pointer is all of the node that advancing changes.
pub advance_cluster_node :
    (D : Device) (ef : Exfat D) (node : Node) (count c : ℕ) (node' : Node)
    → advance_cluster D ef node count ≡ some (c, node')
    → node' ≡ record node { fptr_index = count; fptr_cluster = c }
unfolding advance_cluster
advance_cluster_node D ef node count c node' e =
    go
      (advance D ef node (count - (if ltb count node.fptr_index then 0 else node.fptr_index))
        (if ltb count node.fptr_index then node.start_cluster else node.fptr_cluster))
      e
  where
    go :
        (o : Option ℕ)
        → ◌≡◌ {A = Option (ℕ × Node)}
            (elim o [
              | none ↦ none
              | some cluster ↦
                  some (cluster, record node { fptr_index = count; fptr_cluster = cluster })
            ])
            (some (c, node'))
        → node' ≡ record node { fptr_index = count; fptr_cluster = c }
    go none h = ground arith
    go (some cluster) h =
        let same = some-injective _ _ h in
        sym (ap (λ (t : ℕ × Node). t.1) same)
        ∙ ap (λ (k : ℕ). record node { fptr_index = count; fptr_cluster = k })
            (ap (λ (t : ℕ × Node). t.0) same)

module _ (D : Device) (sb : SuperBlock) (valid size references : ℕ) where
  -- The super block is `sb`, and the node has these sizes and references.
  pub record IsSized (s : File D) : Type 0 where
    pub same_sb : s.ef.sb ≡ sb
    pub same_valid : s.node.valid_size ≡ valid
    pub same_size : s.node.size ≡ size
    pub same_references : s.node.references ≡ references

  IsSized-ef :
      (s : File D) (ef : Exfat D) → IsSized s → ef.sb ≡ s.ef.sb → IsSized (record s { ef = ef })
  IsSized-ef s ef i e = record {
    same_sb = e ∙ i.same_sb;
    same_valid = i.same_valid;
    same_size = i.same_size;
    same_references = i.same_references;
  }

  pub seek-Keeps : (count : ℕ) → Keeps IsSized (seek D count)
  unfolding seek
  seek-Keeps count = record { kept = λ s i. go s i (advance_cluster D s.ef s.node count) refl }
    where
      go :
          (s : File D)
          → IsSized s
          → (o : Option (ℕ × Node)) → advance_cluster D s.ef s.node count ≡ o
          → Holds
              (Unit {0})
              (λ rc. IsSized)
              (λ a. IsSized)
              (elim o [
                | none ↦ bug
                | some (cluster, node) ↦ done cluster (record s { node = node })
              ])
      go s i none e = tt
      go s i (some (c, node)) e =
          let same = advance_cluster_node D s.ef s.node count c node e in
          record {
            same_sb = i.same_sb;
            same_valid = rw same i.same_valid;
            same_size = rw same i.same_size;
            same_references = rw same i.same_references;
          }

  written :
      (s : File D)
      → IsSized s
      → (o : Option D.Store)
      → Holds
          (Unit {0})
          (λ rc. IsSized)
          (λ a. IsSized)
          (elim o [
            | none ↦ failed eio s
            | some dev ↦ done tt (record s { ef = record s.ef { dev = dev } })
          ])
  written s i none = i
  written s i (some dev) = IsSized-ef s (record s.ef { dev = dev }) i refl

  set_next_cluster-Keeps :
      (b : Bool) (current next : ℕ) → Keeps IsSized (set_next_cluster D b current next)
  unfolding set_next_cluster
  set_next_cluster-Keeps true current next = record { kept = λ s i. i }
  set_next_cluster-Keeps false current next = record {
    kept = λ s i.
        written s i (D.pwrite s.ef.dev (put 4 (replicate 4 0) 0 next) (fat_offset s.ef.sb current));
  }

  link-Keeps : (current next : ℕ) → Keeps IsSized (link D current next)
  unfolding link
  link-Keeps current next = search (keeps, set_next_cluster-Keeps)

  link_run-Keeps : (n c : ℕ) → Keeps IsSized (link_run D n c)
  unfolding link_run
  link_run-Keeps zero c = search keeps
  link_run-Keeps (suc n) c = search (keeps, set_next_cluster-Keeps, link_run-Keeps n)

  update_same :
      (f : Node → Node)
      → ((n : Node)
          → ((f n).valid_size ≡ n.valid_size)
            × ((f n).size ≡ n.size)
            × ((f n).references ≡ n.references))
      → Keeps IsSized (update D f)
  update_same f h = Keeps-modify _ λ s i. record {
    same_sb = i.same_sb;
    same_valid = (h s.node).0 ∙ i.same_valid;
    same_size = (h s.node).1 ∙ i.same_size;
    same_references = (h s.node).2 ∙ i.same_references;
  }

  module _ (e : Endian) where
    release-Keeps : (cluster : ℕ) → Keeps IsSized (release D e cluster)
    unfolding release
    release-Keeps cluster = record { kept = λ s i. go s i (free_cluster e s.ef.cmap cluster) }
      where
        go :
            (s : File D)
            → IsSized s
            → (o : Option Cmap)
            → Holds
                (Unit {0})
                (λ rc. IsSized)
                (λ a. IsSized)
                (elim o [
                  | none ↦ bug
                  | some cmap ↦ done tt (record s { ef = record s.ef { cmap = cmap } })
                ])
        go s i none = tt
        go s i (some cmap) = IsSized-ef s (record s.ef { cmap = cmap }) i refl

    take_cluster-Keeps : (hint : ℕ) → Keeps IsSized (take_cluster D e hint)
    unfolding take_cluster
    take_cluster-Keeps hint = record {
      kept =
          λ s i. IsSized-ef s (record s.ef { cmap = (allocate_cluster e s.ef.cmap hint).1 }) i refl;
    }

    free_clusters-Keeps : (n previous : ℕ) → Keeps IsSized (free_clusters D e n previous)
    unfolding free_clusters
    free_clusters-Keeps zero previous = search keeps
    free_clusters-Keeps (suc n) previous =
        search (keeps, link-Keeps, release-Keeps, free_clusters-Keeps n)

    crop-Keeps : (count : ℕ) → Keeps IsSized (crop D e count)
    unfolding crop
    crop-Keeps count = search (keeps, seek-Keeps, link-Keeps)

    drop_all-Keeps : Keeps IsSized (drop_all D e)
    unfolding drop_all
    drop_all-Keeps = search (keeps, update_same)

    shrink_file-Keeps :
        (current difference : ℕ) → Keeps IsSized (shrink_file D e current difference)
    unfolding shrink_file
    shrink_file-Keeps current difference =
        search (keeps, update_same, crop-Keeps, drop_all-Keeps, free_clusters-Keeps)

    out_of_space-Keeps :
        (current allocated : ℕ) → Keeps IsSized (out_of_space D e current allocated)
    unfolding out_of_space
    out_of_space-Keeps current allocated = search (keeps, shrink_file-Keeps)

    write_run-Keeps : (previous : ℕ) → Keeps IsSized (write_run D e previous)
    unfolding write_run
    write_run-Keeps previous = search (keeps, update_same, link_run-Keeps)

    split_run-Keeps : (previous next : ℕ) → Keeps IsSized (split_run D e previous next)
    unfolding split_run
    split_run-Keeps previous next = search (keeps, write_run-Keeps)

    grow-Keeps :
        (n current allocated previous : ℕ) → Keeps IsSized (grow D e n current allocated previous)
    unfolding grow
    grow-Keeps zero current allocated previous = search (keeps, link-Keeps)
    grow-Keeps (suc n) current allocated previous = search (
      keeps,
      take_cluster-Keeps,
      out_of_space-Keeps,
      split_run-Keeps,
      link-Keeps,
      grow-Keeps n current (allocated + 1),
    )

    append-Keeps : (current difference : ℕ) → Keeps IsSized (append D e current difference)
    unfolding append
    append-Keeps current difference = search (keeps, seek-Keeps, grow-Keeps)

    begin_chain-Keeps :
        (current difference : ℕ) → Keeps IsSized (begin_chain D e current difference)
    unfolding begin_chain
    begin_chain-Keeps current difference =
        search (keeps, update_same, take_cluster-Keeps, grow-Keeps) depth 9

    grow_file-Keeps : (current difference : ℕ) → Keeps IsSized (grow_file D e current difference)
    unfolding grow_file
    grow_file-Keeps current difference = search (keeps, append-Keeps, begin_chain-Keeps)

    erase_raw-Keeps : (n offset : ℕ) → Keeps IsSized (erase_raw D e n offset)
    unfolding erase_raw
    erase_raw-Keeps n offset = record {
      kept = λ s i. written s i (D.pwrite s.ef.dev (replicate n 0) offset);
    }

    erase_clusters-Keeps : (n cluster : ℕ) → Keeps IsSized (erase_clusters D e n cluster)
    unfolding erase_clusters
    erase_clusters-Keeps zero cluster = search keeps
    erase_clusters-Keeps (suc n) cluster =
        search (keeps, erase_raw-Keeps, erase_clusters-Keeps n) depth 9

    erase_from-Keeps : (n begin end : ℕ) → Keeps IsSized (erase_from D e n begin end)
    unfolding erase_from
    erase_from-Keeps n begin end = search (keeps, seek-Keeps, erase_raw-Keeps, erase_clusters-Keeps)

    pub erase_range-Keeps : (begin end : ℕ) → Keeps IsSized (erase_range D e begin end)
    unfolding erase_range
    erase_range-Keeps begin end = search (keeps, erase_from-Keeps)

    pub resize_chain-Keeps : (c1 c2 : ℕ) → Keeps IsSized (resize_chain D e c1 c2)
    unfolding resize_chain
    resize_chain-Keeps c1 c2 = search (keeps, grow_file-Keeps, shrink_file-Keeps)
