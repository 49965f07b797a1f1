-- ===== src/Tree/Detached.antt =====
-- A node is detached from its directory.
use exfat.Prelude.{
  ◌≡◌, ◌≢◌, refl, sym, ap, subst, ◌∙◌, true, some, List, [], ◌∷◌, ◌==◌, if◌then◌else◌, Bool-cases,
  ==→eq, ==→ne, inl, inr,
}
use exfat.Prelude.Effect.{done, ◌>>◌, pure}
use exfat.Prelude.Effect.Steps.{bind_done, then_done, branch-true, branch-false}
use exfat.Chain.{Device}
use exfat.Tree.{Ptr, null, Inode, Heap, Fs, load, assign, skip_forward, skip_back, tree_detach}
use exfat.Tree.References.{edit, with_heap, load_done, assign_done}
use exfat.Tree.Links.{
  edit_self, edit_ne, edit_real, edit_real_ne, Present, remove, Linked, nil, cons, IsChildren,
  set_prev, set_next, set_child, frame_edit, relink, head_apart, head_holds,
}
use exfat.Tree.Bypassed.{
  Absent-remove, remove_ne, remove_self, same_inode, Present-ne, Uncons, uncons, There, edit-There,
  bypassed_ne, bypassed, Bypassed, Bypassed_lem, alone_now,
}

-- What the detached node leaves of a directory, and how its own links are left.
pub record IsDetached (h h' : Heap) (dir : Ptr) (xs : List Ptr) (node : Ptr) (i : Inode)
    : Type 0 where
  pub children : IsChildren h' dir (remove node xs)
  pub detached : h' node ≡ some (alone_now i)

detached_heap : Ptr → Inode → Heap → Heap
detached_heap node i h = edit node alone_now (bypassed i h)

-- The node is the first of its directory.
detach_first :
    (h : Heap) (dir node : Ptr) (xs : List Ptr) (c : IsChildren h dir (node ∷ xs)) (i : Inode)
    → h node ≡ some i
    → IsDetached h (detached_heap node i h) dir (node ∷ xs) node i
unfolding detached_heap
detach_first h dir node xs c i e =
    let (to_node, u) = uncons c.links in
    let same = same_inode h node e u.holds in
    subst (λ j. IsDetached h (edit node alone_now (bypassed j h)) dir (node ∷ xs) node j) same
      (let k = u.inode in
        let dir_ne_next = head_apart dir c.real u.rest c.apart.1 in
        let no_prev : (k.prev == null) ≡ true = rw u.back refl in
        let g = edit_real k.next (set_prev null) (edit dir (set_child k.next) h) in
        let eq : g ≡ bypassed k h = rw (u.back, u.up) refl in
        subst (λ f. IsDetached h (edit node alone_now f) dir (node ∷ xs) node k) eq
          (record {
            children =
                subst (IsChildren (edit node alone_now g) dir) (sym (remove_self node xs)) (record {
                  inode = set_child k.next c.inode;
                  real = c.real;
                  holds =
                      edit_ne node alone_now g dir c.apart.0
                      ∙ edit_real_ne k.next (set_prev null) (edit dir (set_child k.next) h) dir
                          dir_ne_next
                      ∙ edit_self dir (set_child k.next) h c.inode c.holds;
                  apart = c.apart.1;
                  links =
                      frame_edit node alone_now
                        (relink null (frame_edit dir (set_child k.next) u.rest c.apart.1)) u.alone;
                });
            detached = edit_self node alone_now g k (
                edit_real_ne k.next (set_prev null) (edit dir (set_child k.next) h) node
                  (head_apart node u.real u.rest u.alone)
                ∙ edit_ne dir (set_child k.next) h node (λ q. c.apart.0 (sym q))
                ∙ u.holds);
          }))

detach_later :
    (h : Heap) (dir p node : Ptr) (xs : List Ptr) (c : IsChildren h dir (p ∷ xs)) (i : Inode)
    → Bypassed h dir null p xs node i
    → c.inode.child ≡ p
    → node ≢ p
    → node ≢ dir
    → h node ≡ some i
    → IsDetached h (detached_heap node i h) dir (p ∷ xs) node i
unfolding detached_heap
detach_later h dir p node xs c i b to_p other apart e =
    let g = bypassed i h in
    let dir_alone = b.among dir c.real c.apart in
    record {
      children =
          subst (IsChildren (edit node alone_now g) dir) (sym (remove_ne node p xs other)) (record {
            inode = c.inode;
            real = c.real;
            holds =
                edit_ne node alone_now g dir (λ q. apart (sym q))
                ∙ bypassed_ne i h dir b.has_prev dir_alone.0 dir_alone.1
                ∙ c.holds;
            apart = (c.apart.0, Absent-remove dir node xs c.apart.1);
            links =
                subst (λ q. Linked (edit node alone_now g) dir null q (p ∷ remove node xs))
                  (sym to_p) (frame_edit node alone_now b.links b.gone);
          });
      detached =
          edit_self node alone_now g i (bypassed_ne i h node b.has_prev b.self.0 b.self.1 ∙ e);
    }

Present-real :
    {h : Heap} {dir prev p : Ptr} {xs : List Ptr} {a : Ptr}
    → Linked h dir prev p xs
    → Present a xs
    → a ≢ null
Present-real nil there = absurd there
Present-real (cons real e up back alone rest) (inl here) = λ q. real (sym here ∙ q)
Present-real (cons real e up back alone rest) (inr there) = Present-real rest there

module _ (D : Device) where
  skip_forward_lem :
      (s : Fs D) (i : Inode)
      → (i.prev ≡ null → (i.parent ≢ null) × There s.heap i.parent)
      → (i.prev ≢ null → There s.heap i.prev)
      → skip_forward D i s
        ≡ done tt (
            with_heap D s (
              if i.prev == null
              then edit i.parent (set_child i.next) s.heap
              else edit i.prev (set_next i.next) s.heap))
  unfolding skip_forward
  skip_forward_lem s i up back =
      let forward = assign D i.parent (set_child i.next) in
      let around = assign D i.prev (set_next i.next) in
      elim (Bool-cases (i.prev == null)) [
        | inl e ↦
            let parent = up (==→eq i.prev null e) in
            branch-true (λ t. i.prev == null) forward around s e
            ∙ assign_done D i.parent (set_child i.next) s parent.1.0 parent.0 parent.1.1
            ∙ rw e refl
        | inr e ↦
            let real = ==→ne i.prev null e in
            branch-false (λ t. i.prev == null) forward around s e
            ∙ assign_done D i.prev (set_next i.next) s (back real).0 real (back real).1
            ∙ rw e refl
      ]

  skip_back_lem :
      (s : Fs D) (i : Inode)
      → (i.next ≢ null → There s.heap i.next)
      → skip_back D i s ≡ done tt (with_heap D s (edit_real i.next (set_prev i.prev) s.heap))
  unfolding skip_back pure
  skip_back_lem s i on = elim (Bool-cases (i.next == null)) [
    | inl e ↦
        branch-true (λ t. i.next == null) (pure tt) (assign D i.next (set_prev i.prev)) s e
        ∙ rw e refl
    | inr e ↦
        let real = ==→ne i.next null e in
        branch-false (λ t. i.next == null) (pure tt) (assign D i.next (set_prev i.prev)) s e
        ∙ assign_done D i.next (set_prev i.prev) s (on real).0 real (on real).1
        ∙ rw e refl
  ]

  tree_detach_lem :
      (s : Fs D) (node : Ptr) (i : Inode)
      → node ≢ null
      → s.heap node ≡ some i
      → (i.prev ≡ null → (i.parent ≢ null) × There s.heap i.parent)
      → (i.prev ≢ null → There s.heap i.prev)
      → (i.next ≢ null → There s.heap i.next)
      → bypassed i s.heap node ≡ some i
      → tree_detach D node s ≡ done tt (with_heap D s (detached_heap node i s.heap))
  unfolding tree_detach detached_heap
  tree_detach_lem s node i real e up back on still =
      let h1 =
        if i.prev == null
        then edit i.parent (set_child i.next) s.heap
        else edit i.prev (set_next i.next) s.heap in
      let s1 = with_heap D s h1 in
      let s2 = with_heap D s (bypassed i s.heap) in
      let last = assign D node alone_now in
      bind_done (load D node) (λ j. skip_forward D j >> (skip_back D j >> last)) s s i
        (load_done D node s i real e)
      ∙ then_done (skip_forward D i) (skip_back D i >> last) s s1 tt (skip_forward_lem s i up back)
      ∙ then_done (skip_back D i) last s1 s2 tt (
          skip_back_lem s1 i λ next_real. elim (Bool-cases (i.prev == null)) [
            | inl e' ↦ rw e' (edit-There i.parent (set_child i.next) s.heap i.next (on next_real))
            | inr e' ↦ rw e' (edit-There i.prev (set_next i.next) s.heap i.next (on next_real))
          ])
      ∙ assign_done D node alone_now s2 i real still

  -- What the calls of detaching the first node need.
  detach_first_run :
      (s : Fs D) (dir p : Ptr) (xs : List Ptr) (c : IsChildren s.heap dir (p ∷ xs))
      (u : Uncons s.heap dir null p xs)
      → tree_detach D p s ≡ done tt (with_heap D s (detached_heap p u.inode s.heap))
  detach_first_run s dir p xs c u =
      let k = u.inode in
      let g = edit_real k.next (set_prev null) (edit dir (set_child k.next) s.heap) in
      let eq : g ≡ bypassed k s.heap = rw (u.back, u.up) refl in
      tree_detach_lem s p k u.real u.holds
        (λ q. ((λ z. c.real (sym u.up ∙ z)), (c.inode, ap s.heap u.up ∙ c.holds)))
        (λ n. absurd (n u.back)) (head_holds u.rest)
        (ap (λ f. f p) (sym eq)
          ∙ edit_real_ne k.next (set_prev null) (edit dir (set_child k.next) s.heap) p
              (head_apart p u.real u.rest u.alone)
          ∙ edit_ne dir (set_child k.next) s.heap p (λ q. c.apart.0 (sym q))
          ∙ u.holds)

  detach_later_run :
      (s : Fs D) (dir p node : Ptr) (xs : List Ptr) (i : Inode)
      → Bypassed s.heap dir null p xs node i
      → node ≢ null
      → s.heap node ≡ some i
      → tree_detach D node s ≡ done tt (with_heap D s (detached_heap node i s.heap))
  detach_later_run s dir p node xs i b real e =
      tree_detach_lem s node i real e (λ q. absurd (b.has_prev q)) (λ n. b.prev_there) b.next_there
        (bypassed_ne i s.heap node b.has_prev b.self.0 b.self.1 ∙ e)

  -- A node that is one of the nodes of a directory is, once it is detached, off their list, which
  -- stays linked both ways, and has no parent and no neighbours.
  pub tree_detach-IsChildren :
      (s : Fs D) (dir node : Ptr) (xs : List Ptr) (i : Inode)
      → IsChildren s.heap dir xs
      → Present node xs
      → s.heap node ≡ some i
      → (h : Heap) × ((tree_detach D node s ≡ done tt (with_heap D s h))
          × IsDetached s.heap h dir xs node i)
  tree_detach-IsChildren s dir node [] i c there e = absurd there
  tree_detach-IsChildren s dir node (p ∷ xs) i c there e =
      let (to_p, u) = uncons c.links in
      elim (Bool-cases (node == p)) [
        | inl here ↦
            let same = ==→eq node p here in
            let i_same = same_inode s.heap p (ap s.heap (sym same) ∙ e) u.holds in
            let run =
              subst (λ j. tree_detach D p s ≡ done tt (with_heap D s (detached_heap p j s.heap)))
                i_same (detach_first_run s dir p xs c u) in
            (
              detached_heap node i s.heap,
              (
                subst (λ q. tree_detach D q s ≡ done tt (with_heap D s (detached_heap q i s.heap)))
                    (sym same) run,
                subst (λ q. IsDetached s.heap (detached_heap q i s.heap) dir (p ∷ xs) q i)
                    (sym same) (detach_first s.heap dir p xs c i (ap s.heap (sym same) ∙ e)),
              ),
            )
        | inr other ↦
            let later = ==→ne node p other in
            let behind : Present node xs = elim there [ inl q ↦ absurd (later q) | inr t ↦ t ] in
            let b = Bypassed_lem s.heap dir null p node xs i u e behind in
            (
              detached_heap node i s.heap,
              (
                detach_later_run s dir p node xs i b (Present-real u.rest behind) e,
                detach_later s.heap dir p node xs c i b to_p later
                    (Present-ne dir node xs c.apart.1 behind) e,
              ),
            )
      ]
