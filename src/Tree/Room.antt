-- ===== src/Tree/Room.antt =====
-- A slot that is found in a directory is of no node: find_slot of libexfat/node.c.
use exfat.Prelude.{
  ℕ, zero, suc, ◌+◌, ◌-◌, ◌*◌, ◌/◌, ◌%◌, ◌<◌, ◌≤◌, ◌≡◌, ◌≢◌, refl, sym, ap, subst, ◌∙◌, ◌⊎◌, true,
  false, not, some, List, arith, ◌==◌, if◌then◌else◌, Bool-cases, ==→eq, ==→ne, inl, inr, length,
}
use exfat.Prelude.Int.{ℤ}
use exfat.Prelude.Effect.{Outcome, done, ◌>>=◌, ◌>>◌, pure, stop_if, gets}
use exfat.Prelude.Effect.Steps.{bind_done, branch-false, stop_if-false, gets_done}
use exfat.Bitmap.{Endian, round_up}
use exfat.Dirent.{Node}
use exfat.Chain.{Device, sb_cluster_size}
use exfat.Tree.{Ptr, null, Inode, Fs, load, truncate_node}
use exfat.Tree.Entries.{entry_size}
use exfat.Tree.References.{load_done}
use exfat.Tree.Marks.{
  first_entry, end_entry, NodesFrom, ended, node_and, AllNodes, marks, free_lem, apart_lem, Within,
  covered, right_of, left_of,
}
use exfat.Tree.Scan.{IsSlot, scan_slots_lem}
use exfat.Tree.Slots.{
  Slot, slot, short, mark_node, empty_map, mark_nodes, scan_slots, extend, find_slot,
}

module _ (e : Endian) where
  module _ (D : Device) where
    mark_nodes_lem :
        (fuel : ℕ) (dmap : List ℕ) (s : Fs D) {p : Ptr} {nodes : List Node}
        → NodesFrom s.heap p nodes
        → length nodes < fuel
        → mark_nodes D e fuel dmap p s ≡ done (marks e dmap nodes) s
    unfolding mark_nodes pure
    mark_nodes_lem zero dmap s l enough = absurd (omega arith)
    mark_nodes_lem (suc fuel) dmap s ended enough = refl
    mark_nodes_lem (suc fuel) dmap s (node_and {p} {i} real holds rest) enough =
        let there : (p == 0) ≡ false = ground (arith, real) in
        branch-false (λ t. p == 0) (pure dmap)
          (load D p >>= λ j. mark_nodes D e fuel (mark_node e dmap j.node) j.next) s there
        ∙ bind_done (load D p) (λ j. mark_nodes D e fuel (mark_node e dmap j.node) j.next) s s i
            (load_done D p s i real holds)
        ∙ mark_nodes_lem fuel (mark_node e dmap i.node) s rest (omega arith)

    -- The search ended at a slot, or the directory grows; either way the entries are of no node.
    pub record IsPlaced (now : ℤ) (dir : Ptr) (n : ℕ) (d : Node) (nodes : List Node) (s : Fs D)
        (o : Outcome (Fs D) ℕ) : Type 0 where
      pub first : ℕ
      pub apart : AllNodes (λ node. (first + n ≤ first_entry node) ⊎ (end_entry node ≤ first)) nodes
      pub ends :
          ((first + n ≤ d.size / entry_size) × (o ≡ done (first * entry_size) s))
          ⊎ ((first ≤ d.size / entry_size)
              × (o
                  ≡ (truncate_node D e now dir
                          (round_up
                            (d.size + (first + n - d.size / entry_size) * entry_size)
                            (sb_cluster_size s.ef.sb))
                          true
                        >> pure (first * entry_size))
                      s))

    Placed_lem :
        (now : ℤ) (dir : Ptr) (n : ℕ) (s : Fs D) (i : Inode) (nodes : List Node) (found : Slot)
        → 0 < n
        → dir ≢ null
        → s.heap dir ≡ some i
        → i.node.size % entry_size ≡ 0
        → Within e (i.node.size / entry_size) nodes
        → IsSlot e n
            (i.node.size / entry_size)
            (marks e (empty_map e (i.node.size / entry_size)) nodes)
            found
        → IsPlaced now dir n i.node nodes s (extend D e now dir n found s)
    unfolding extend pure
    Placed_lem now dir n s i nodes (slot offset) some_entries real holds whole within
          (k, (at, (inside, free))) =
        let count = i.node.size / entry_size in
        record {
          first = k;
          apart =
              apart_lem e k (k + n) n nodes some_entries (omega arith)
                (left_of e (k + n) (k + n) nodes (omega arith))
                λ m low high.
                  free_lem e (empty_map e count) nodes m (covered e count nodes within)
                    (free m low high);
          ends = inl (inside, ap (λ o. done o s) at);
        }
    Placed_lem now dir n s i nodes (short c offset) some_entries real holds whole within
          (few, (fits, (start, free))) =
        let count = i.node.size / entry_size in
        let k = count - c in
        let missing : n - c ≡ k + n - count = omega (arith, fits, few) in
        let at : (if c == 0 then i.node.size else offset) ≡ k * entry_size =
          elim (Bool-cases (c == 0)) [
            | inl none_free ↦ rw none_free (omega (arith, whole, ==→eq c 0 none_free))
            | inr some_free ↦ rw some_free (start (==→ne c 0 some_free))
          ] in
        let size = λ (m : ℕ). round_up (i.node.size + m * entry_size) (sb_cluster_size s.ef.sb) in
        record {
          first = k;
          apart =
              apart_lem e k count n nodes some_entries (omega arith)
                (right_of e (k + n) count nodes within)
                λ m low high.
                  free_lem e (empty_map e count) nodes m (covered e count nodes within)
                    (free m low high);
          ends = inr (
            omega arith,
            bind_done (load D dir)
                  (λ d. gets (λ t. sb_cluster_size t.ef.sb) >>= λ cs.
                    truncate_node D e now dir (round_up (d.node.size + (n - c) * entry_size) cs)
                      true
                    >> pure (if c == 0 then d.node.size else offset))
                  s s i (load_done D dir s i real holds)
                ∙ gets_done (λ t. sb_cluster_size t.ef.sb)
                    (λ cs.
                      truncate_node D e now dir (round_up (i.node.size + (n - c) * entry_size) cs)
                        true
                      >> pure (if c == 0 then i.node.size else offset))
                    s
                ∙ ap
                    (λ m.
                      (truncate_node D e now dir (size m) true
                          >> pure (if c == 0 then i.node.size else offset))
                        s)
                    missing
                ∙ ap (λ o. (truncate_node D e now dir (size (k + n - count)) true >> pure o) s) at,
          );
        }

    -- In a directory other than the root that is in memory, holds a whole number of entries and
    -- whose nodes lie within it, the search for one entry or more ends, on fuel greater than the
    -- number of its nodes and entries. It gives a slot inside the directory, with the volume as it
    -- was, or has the directory grow by what the entries need behind its last free ones. Either
    -- way no entry of the slot is one of a node.
    pub find_slot-IsPlaced :
        (now : ℤ) (fuel : ℕ) (dir : Ptr) (n : ℕ) (s : Fs D) (i : Inode) (nodes : List Node)
        → 0 < n
        → dir ≢ null
        → dir ≢ s.root
        → s.heap dir ≡ some i
        → i.node.is_cached ≡ true
        → i.node.size % entry_size ≡ 0
        → NodesFrom s.heap i.child nodes
        → Within e (i.node.size / entry_size) nodes
        → length nodes < fuel
        → i.node.size / entry_size < fuel
        → IsPlaced now dir n i.node nodes s (find_slot D e now fuel dir n s)
    unfolding find_slot
    find_slot-IsPlaced now fuel dir n s i nodes some_entries real other holds cached whole list
          within enough long =
        let count = i.node.size / entry_size in
        let dmap = marks e (empty_map e count) nodes in
        let found =
          scan_slots_lem e D now dir n count dmap s other fuel 0 0 0 (omega arith) (record {
            inside = omega arith;
            back = omega arith;
            few = some_entries;
            start = λ m. absurd (m refl);
            free = λ k low high. absurd (omega (arith, low, high));
          }) in
        let scan =
          λ (m : List ℕ). scan_slots D e now dir n m count fuel 0 0 0 >>= extend D e now dir n in
        let known : not i.node.is_cached ≡ false = rw cached refl in
        let run =
          bind_done (load D dir)
            (λ d.
              stop_if (λ t. not d.node.is_cached)
              >> (mark_nodes D e fuel (empty_map e (d.node.size / entry_size)) d.child >>= λ m.
                  scan_slots D e now dir n m (d.node.size / entry_size) fuel 0 0 0
                  >>= extend D e now dir n))
            s s i (load_done D dir s i real holds)
          ∙ stop_if-false (λ t. not i.node.is_cached)
              (mark_nodes D e fuel (empty_map e count) i.child >>= scan) s known
          ∙ bind_done (mark_nodes D e fuel (empty_map e count) i.child) scan s s dmap
              (mark_nodes_lem fuel (empty_map e count) s list enough)
          ∙ bind_done (scan_slots D e now dir n dmap count fuel 0 0 0) (extend D e now dir n) s s
              found.0 found.1.0 in
        subst (IsPlaced now dir n i.node nodes s) (sym run)
          (Placed_lem now dir n s i nodes found.0 some_entries real holds whole within found.1.1)
