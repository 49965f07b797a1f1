-- ===== src/Tree/Shrunk.antt =====
-- A directory that shrinks keeps the entries of its nodes: shrink_directory of libexfat/node.c.
use exfat.Prelude.{
  ℕ, zero, suc, ◌+◌, ◌*◌, ◌%◌, ◌<◌, ◌≤◌, ◌≡◌, ◌≢◌, refl, sym, ap, subst, ◌∙◌, ◌⊎◌, true, false, not,
  Option, none, some, List, [], ◌∷◌, arith, ◌==◌, ltb, Bool-cases, ==→eq, ==→ne, inl, inr, length,
}
use native.Mathlib.Nat.{mod_self, zero-mod, add-mul-mod_self_right}
use exfat.Prelude.Int.{ℤ}
use exfat.Prelude.Effect.{Outcome, done, ◌>>=◌, ◌>>◌, pure, branch, stop_if, gets}
use exfat.Prelude.Effect.Steps.{bind_done, branch-true, branch-false, stop_if-false, gets_done}
use exfat.Bitmap.{Endian, div_round_up, round_up}
use exfat.Dirent.{Node}
use exfat.Chain.{Device, sb_cluster_size}
use exfat.Io.{is_dir}
use exfat.Tree.{Ptr, null, Inode, Fs, load, truncate_node}
use exfat.Tree.Entries.{entry_size}
use exfat.Tree.References.{load_done}
use exfat.Tree.Slots.{
  Last, followed, final, later, entries_up_to, shrunk_size, last_from, shrink_to, shrink_directory,
}
use exfat.Mkfs.Rounding.{round_up-le}
use exfat.Tree.Marks.{end_entry, NodesFrom, ended, node_and, AllNodes}
use exfat.Tree.Last.{IsNamed, AreApart, last_of, Keeps, last_of-Keeps}

whole_lem : (k d : ℕ) → k * d % d ≡ 0
whole_lem k d =
    let from_zero : k * d ≡ 0 + k * d = omega arith in
    ap (λ (t : ℕ). t % d) from_zero ∙ add-mul-mod_self_right 0 k d ∙ zero-mod d

shrunk_size_lem :
    (cs : ℕ) (found : Option Node)
    → 0 < cs
    → (entries_up_to found * entry_size ≤ shrunk_size cs found)
      × (0 < shrunk_size cs found)
      × (shrunk_size cs found % cs ≡ 0)
unfolding shrunk_size
shrunk_size_lem cs found pos =
    let size = entries_up_to found * entry_size in
    let covered = round_up-le size cs pos in
    elim (Bool-cases (round_up size cs == 0)) [
      | inl none_left ↦
          rw none_left
            (omega (arith, covered, ==→eq (round_up size cs) 0 none_left), pos, mod_self cs)
      | inr some_left ↦ rw some_left (
        covered,
        omega (arith, ==→ne (round_up size cs) 0 some_left),
        whole_lem (div_round_up size cs) cs,
      )
    ]

module _ (D : Device) (e : Endian) (now : ℤ) where
  last_from_lem :
      (fuel deleted_offset : ℕ) (found : Option Node) (s : Fs D) {p : Ptr} {nodes : List Node}
      → NodesFrom s.heap p nodes
      → length nodes < fuel
      → last_from D e now fuel deleted_offset p found s
        ≡ done (last_of deleted_offset nodes found) s
  unfolding last_from pure
  last_from_lem zero deleted_offset found s l enough = absurd (omega arith)
  last_from_lem (suc fuel) deleted_offset found s ended enough = refl
  last_from_lem (suc fuel) deleted_offset found s (node_and {p} {i} {nodes} real holds rest)
        enough =
      let there : (p == 0) ≡ false = ground (arith, real) in
      let more = last_from D e now fuel deleted_offset i.next (later found i.node) in
      let behind = λ (j : Inode). ltb deleted_offset j.node.entry_offset in
      let go = λ (j : Inode).
        branch (λ t. behind j) (pure followed)
          (last_from D e now fuel deleted_offset j.next (later found j.node)) in
      branch-false (λ t. p == 0) (pure (final found)) (load D p >>= go) s there
      ∙ bind_done (load D p) go s s i (load_done D p s i real holds)
      ∙ elim (Bool-cases (behind i)) [
        | inl b ↦ branch-true (λ t. behind i) (pure followed) more s b ∙ rw b refl
        | inr b ↦
            branch-false (λ t. behind i) (pure followed) more s b
            ∙ last_from_lem fuel deleted_offset (later found i.node) s rest (omega arith)
            ∙ rw b refl
      ]

  -- The directory stays, or is given a size in whole clusters that covers the entries of its nodes.
  abbrev pub IsShrunk : Ptr → List Node → Fs D → Outcome (Fs D) (Unit {0}) → Type 0
  IsShrunk dir nodes s o =
      (o ≡ done tt s)
      ⊎ ((size : ℕ) × (o ≡ truncate_node D e now dir size true s)
          × (0 < size)
          × (size % sb_cluster_size s.ef.sb ≡ 0)
          × AllNodes (λ node. end_entry node * entry_size ≤ size) nodes)

  covered :
      (high size : ℕ) (nodes : List Node)
      → high * entry_size ≤ size
      → AllNodes (λ node. end_entry node ≤ high) nodes
      → AllNodes (λ node. end_entry node * entry_size ≤ size) nodes
  covered high size [] le ends = tt
  covered high size (node ∷ nodes) le ends =
      (omega (arith, le, ends.0), covered high size nodes le ends.1)

  shrink_to-IsShrunk :
      (dir : Ptr) (s : Fs D) (i : Inode) (nodes : List Node) (l : Last)
      → dir ≢ null
      → s.heap dir ≡ some i
      → 0 < sb_cluster_size s.ef.sb
      → Keeps nodes l
      → IsShrunk dir nodes s (shrink_to D e now dir l s)
  unfolding shrink_to pure
  shrink_to-IsShrunk dir s i nodes followed real holds pos keeps = inl refl
  shrink_to-IsShrunk dir s i nodes (final found) real holds pos keeps =
      let cs = sb_cluster_size s.ef.sb in
      let size = shrunk_size cs found in
      let facts = shrunk_size_lem cs found pos in
      let change = λ (d : Inode) (c : ℕ).
        branch (λ t. shrunk_size c found == d.node.size) (pure tt)
          (truncate_node D e now dir (shrunk_size c found) true) in
      let opened =
        bind_done (load D dir) (λ d. gets (λ t. sb_cluster_size t.ef.sb) >>= change d) s s i
          (load_done D dir s i real holds)
        ∙ gets_done (λ t. sb_cluster_size t.ef.sb) (change i) s in
      elim (Bool-cases (size == i.node.size)) [
        | inl same ↦ inl (
            opened
            ∙ branch-true (λ t. size == i.node.size) (pure tt) (truncate_node D e now dir size true)
                s same)
        | inr other ↦ inr (
          size,
          opened
              ∙ branch-false (λ t. size == i.node.size) (pure tt)
                  (truncate_node D e now dir size true) s other,
          facts.1,
          facts.2,
          covered (entries_up_to found) size nodes facts.0 keeps,
        )
      ]

  -- In a directory that is in memory, on a volume whose clusters are not empty, where no node has
  -- more entries than its name takes and their entries do not overlap, shrink_directory ends, on
  -- fuel greater than the number of nodes, and leaves the directory as it is or sets a size of
  -- whole clusters, one at least, within which the entries of every node lie.
  pub shrink_directory-IsShrunk :
      (fuel : ℕ) (dir : Ptr) (deleted_offset : ℕ) (s : Fs D) (i : Inode) (nodes : List Node)
      → dir ≢ null
      → s.heap dir ≡ some i
      → is_dir i.node ≡ true
      → i.node.is_cached ≡ true
      → 0 < sb_cluster_size s.ef.sb
      → NodesFrom s.heap i.child nodes
      → length nodes < fuel
      → AllNodes IsNamed nodes
      → AreApart nodes
      → IsShrunk dir nodes s (shrink_directory D e now fuel dir deleted_offset s)
  unfolding shrink_directory
  shrink_directory-IsShrunk fuel dir deleted_offset s i nodes real holds a_dir cached pos list
        enough named apart =
      let no_file : not (is_dir i.node) ≡ false = rw a_dir refl in
      let known : not i.node.is_cached ≡ false = rw cached refl in
      let search = λ (d : Inode).
        last_from D e now fuel deleted_offset d.child none >>= shrink_to D e now dir in
      let run =
        bind_done (load D dir)
          (λ d.
            stop_if (λ t. not (is_dir d.node)) >> (stop_if (λ t. not d.node.is_cached) >> search d))
          s s i (load_done D dir s i real holds)
        ∙ stop_if-false (λ t. not (is_dir i.node)) (stop_if (λ t. not i.node.is_cached) >> search i)
            s no_file
        ∙ stop_if-false (λ t. not i.node.is_cached) (search i) s known
        ∙ bind_done (last_from D e now fuel deleted_offset i.child none) (shrink_to D e now dir) s s
            (last_of deleted_offset nodes none)
            (last_from_lem fuel deleted_offset none s list enough) in
      subst (IsShrunk dir nodes s) (sym run) (
        shrink_to-IsShrunk dir s i nodes (last_of deleted_offset nodes none) real holds pos
          (last_of-Keeps deleted_offset nodes named apart))
