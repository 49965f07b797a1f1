-- ===== src/Tree/Attached.antt =====
-- A node is attached to a directory.
use exfat.Prelude.{
  ◌≡◌, ◌≢◌, refl, sym, subst, ◌∙◌, false, some, List, [], ◌∷◌, arith, ◌==◌, if◌then◌else◌,
  Bool-cases, ==→ne, inl, inr,
}
use exfat.Prelude.Effect.{done, Op, ◌>>=◌, ◌>>◌, pure}
use exfat.Prelude.Effect.Steps.{bind_done, then_done, branch-true, branch-false}
use exfat.Chain.{Device}
use exfat.Tree.{Ptr, null, Inode, Heap, Fs, load, assign, link_child, tree_attach}
use exfat.Tree.References.{edit, with_heap, load_done, assign_done}
use exfat.Tree.Links.{
  edit_self, edit_ne, edit_real, Absent, Linked, nil, cons, IsChildren, set_prev, set_next,
  set_parent, set_child, frame_edit, relink, head_apart, head_holds,
}

module _ (D : Device) where
  -- The node that was the first is linked to the new one.
  abbrev pub linked : Ptr → Ptr → Heap → Heap
  linked node child h =
      if child == null then h else edit node (set_next child) (edit child (set_prev node) h)

  abbrev pub attached : Ptr → Ptr → Ptr → Heap → Heap
  attached dir node child h =
      edit dir (set_child node) (linked node child (edit node (set_parent dir) h))

  link_child_lem :
      (s : Fs D) (node child : Ptr) (i : Inode)
      → node ≢ null
      → s.heap node ≡ some i
      → node ≢ child
      → (child ≢ null → (j : Inode) × (s.heap child ≡ some j))
      → link_child D node child s ≡ done tt (with_heap D s (linked node child s.heap))
  unfolding link_child pure
  link_child_lem s node child i real e apart there = elim (Bool-cases (child == null)) [
    | inl none_there ↦
        branch-true (λ t. child == null) (pure tt) both s none_there ∙ rw none_there refl
    | inr some_there ↦
        let child_real = ==→ne child null some_there in
        let s1 = with_heap D s (edit child (set_prev node) s.heap) in
        branch-false (λ t. child == null) (pure tt) both s some_there
        ∙ then_done (assign D child (set_prev node)) (assign D node (set_next child)) s s1 tt (
            assign_done D child (set_prev node) s (there child_real).0 child_real
              (there child_real).1)
        ∙ assign_done D node (set_next child) s1 i real
            (edit_ne child (set_prev node) s.heap node apart ∙ e)
        ∙ rw some_there refl
  ]
    where
      both : Op (Fs D) (Unit {0})
      both = assign D child (set_prev node) >> assign D node (set_next child)

  linked_ne :
      (node child : Ptr) (h : Heap) (a : Ptr) → a ≢ node → a ≢ child → linked node child h a ≡ h a
  linked_ne node child h a other apart = elim (Bool-cases (child == null)) [
    | inl e ↦ rw e refl
    | inr e ↦ rw e (
        edit_ne node (set_next child) (edit child (set_prev node) h) a other
        ∙ edit_ne child (set_prev node) h a apart)
  ]

  tree_attach_lem :
      (s : Fs D) (dir node : Ptr) (xs : List Ptr) (c : IsChildren s.heap dir xs) (i : Inode)
      → node ≢ null
      → node ≢ dir
      → Absent node xs
      → s.heap node ≡ some i
      → tree_attach D dir node s ≡ done tt (with_heap D s (attached dir node c.inode.child s.heap))
  unfolding tree_attach
  tree_attach_lem s dir node xs c i real apart alone e =
      let d = c.inode in
      let s1 = with_heap D s (edit node (set_parent dir) s.heap) in
      let s2 = with_heap D s (linked node d.child s1.heap) in
      let dir_there = edit_ne node (set_parent dir) s.heap dir (λ q. apart (sym q)) ∙ c.holds in
      let last = assign D dir (set_child node) in
      then_done (assign D node (set_parent dir))
        (load D dir >>= λ k. link_child D node k.child >> last) s s1 tt
        (assign_done D node (set_parent dir) s i real e)
      ∙ bind_done (load D dir) (λ k. link_child D node k.child >> last) s1 s1 d
          (load_done D dir s1 d c.real dir_there)
      ∙ then_done (link_child D node d.child) last s1 s2 tt (
          link_child_lem s1 node d.child (set_parent dir i) real
            (edit_self node (set_parent dir) s.heap i e) (head_apart node real c.links alone)
            λ child_real.
              let j = head_holds c.links child_real in
              (
                j.0,
                edit_ne node (set_parent dir) s.heap d.child
                      (λ q. head_apart node real c.links alone (sym q))
                    ∙ j.1,
              ))
      ∙ assign_done D dir (set_child node) s2 d c.real (
          linked_ne node d.child s1.heap dir (λ q. apart (sym q))
            (head_apart dir c.real c.links c.apart)
          ∙ dir_there)

  front_lem :
      {g : Heap} {dir child : Ptr} {xs : List Ptr} (node : Ptr) (j : Inode)
      → Linked g dir null child xs
      → g node ≡ some j
      → j.parent ≡ dir
      → j.prev ≡ null
      → j.next ≡ null
      → node ≢ null
      → Absent node xs
      → Linked (linked node child g) dir null node (node ∷ xs)
  front_lem {g} {dir} node j nil e up no_prev no_next real alone =
      cons real e up no_prev alone (subst (λ q. Linked g dir node q []) (sym no_next) nil)
  front_lem {g} {dir} node j (cons {p} {i} {xs} r e' up' back alone' rest) e up no_prev no_next real
        alone =
      let some_node : (p == null) ≡ false = ground (arith, r) in
      let again = relink node (cons r e' up' back alone' rest) in
      let moved =
        subst (λ g'. Linked g' dir node p (p ∷ xs))
          (let same : edit_real p (set_prev node) g ≡ edit p (set_prev node) g =
              rw some_node refl in
            same)
          again in
      subst (λ g'. Linked g' dir null node (node ∷ p ∷ xs))
        (let same : edit node (set_next p) (edit p (set_prev node) g) ≡ linked node p g =
            rw some_node refl in
          same)
        (cons real
          (edit_self node (set_next p) (edit p (set_prev node) g) j
            (edit_ne p (set_prev node) g node (alone.0) ∙ e))
          up no_prev alone (frame_edit node (set_next p) moved alone))

  attached-IsChildren :
      (h : Heap) (dir node : Ptr) (xs : List Ptr) (c : IsChildren h dir xs) (i : Inode)
      → node ≢ null
      → node ≢ dir
      → Absent node xs
      → h node ≡ some i
      → i.prev ≡ null
      → i.next ≡ null
      → IsChildren (attached dir node c.inode.child h) dir (node ∷ xs)
  attached-IsChildren h dir node xs c i real apart alone e no_prev no_next = record {
    inode = set_child node c.inode;
    real = c.real;
    holds =
        edit_self dir (set_child node) (linked node c.inode.child (edit node (set_parent dir) h))
          c.inode
          (linked_ne node c.inode.child (edit node (set_parent dir) h) dir (λ q. apart (sym q))
              (head_apart dir c.real c.links c.apart)
            ∙ edit_ne node (set_parent dir) h dir (λ q. apart (sym q))
            ∙ c.holds);
    apart = (λ q. apart (sym q), c.apart);
    links =
        frame_edit dir (set_child node)
          (front_lem node (set_parent dir i) (frame_edit node (set_parent dir) c.links alone)
            (edit_self node (set_parent dir) h i e) refl no_prev no_next real alone)
          (λ q. apart (sym q), c.apart);
  }

  -- A node that exists, is neither the directory nor one of its nodes, and has no neighbours, is
  -- the first node of the directory once it is attached, and the others follow as they were,
  -- linked both ways.
  pub tree_attach-IsChildren :
      (s : Fs D) (dir node : Ptr) (xs : List Ptr) (i : Inode)
      → IsChildren s.heap dir xs
      → node ≢ null
      → node ≢ dir
      → Absent node xs
      → s.heap node ≡ some i
      → i.prev ≡ null
      → i.next ≡ null
      → (h : Heap) × ((tree_attach D dir node s ≡ done tt (with_heap D s h))
          × IsChildren h dir (node ∷ xs))
  tree_attach-IsChildren s dir node xs i c real apart alone e no_prev no_next = (
    attached dir node c.inode.child s.heap,
    (
      tree_attach_lem s dir node xs c i real apart alone e,
      attached-IsChildren s.heap dir node xs c i real apart alone e no_prev no_next,
    ),
  )
