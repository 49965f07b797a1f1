-- ===== src/Tree/References.antt =====
-- References that are taken and given back.
use mathlib.Core.Path.{fun_ext}
use mathlib.Core.Option
use exfat.Prelude.{
  ◌&&◌, not, Bool, true, ◌+◌, ◌-◌, ◌≡◌, ◌≢◌, refl, ap, ◌∙◌, false, Option, none, some, arith, ◌==◌,
  if◌then◌else◌, Bool-cases, ==→eq, inl, inr,
}
use exfat.Prelude.Effect.{done, ◌>>=◌, ◌>>◌, stop_if}
use exfat.Prelude.Effect.Steps.{bind_done, stop_if-false}
use exfat.Dirent.{Node, is_nameable}
use exfat.Chain.{Device}
use exfat.Tree.{
  Ptr, null, Inode, Heap, over_node, write, Fs, load, store, assign, stops_warning, get_node,
  put_node,
}

-- A dirty node has a name that can be shown.
abbrev pub IsQuiet : Node → Type 0
IsQuiet node = node.is_dirty ≡ true → is_nameable node.name ≡ true

quiet_lem :
    (last : Bool) (node : Node)
    → IsQuiet node
    → last && node.is_dirty && not (is_nameable node.name) ≡ false
quiet_lem last node quiet = elim (Bool-cases node.is_dirty) [
  | inl dirty ↦ let shown = quiet dirty in ground (arith, shown)
  | inr clean ↦ ground (arith, clean)
]

abbrev pub more : Inode → Inode
more = over_node λ node. record node { references = node.references + 1 }

abbrev pub fewer : Inode → Inode
fewer = over_node λ node. record node { references = node.references - 1 }

-- A change of the node at an address.
unfoldable pub edit : Ptr → (Inode → Inode) → Heap → Heap
edit p f h a = if a == p then Option.map f (h a) else h a

-- One reference more to the node at an address, and one fewer.
abbrev pub raise_refs : Ptr → Heap → Heap
raise_refs p h = edit p more h

abbrev pub lower_refs : Ptr → Heap → Heap
lower_refs p h = edit p fewer h

fewer-more : (i : Inode) → fewer (more i) ≡ i
fewer-more i =
    let same : i.node.references + 1 - 1 ≡ i.node.references = omega arith in
    ap (λ n. over_node (λ node. record node { references = n }) i) same

map-fewer-more : (o : Option Inode) → Option.map fewer (Option.map more o) ≡ o
map-fewer-more none = refl
map-fewer-more (some i) = ap some (fewer-more i)

pub lower_refs-raise_refs : (p : Ptr) (h : Heap) → lower_refs p (raise_refs p h) ≡ h
unfolding edit
lower_refs-raise_refs p h =
    fun_ext
      λ a. elim (Bool-cases (a == p)) [ inl e ↦ rw e (map-fewer-more (h a)) | inr e ↦ rw e refl ]

-- The references to two nodes are counted apart, even if they are one.
pub lower_refs-raise_refs_two :
    (p q : Ptr) (h : Heap) → lower_refs p (raise_refs q (raise_refs p h)) ≡ raise_refs q h
unfolding edit
lower_refs-raise_refs_two p q h = fun_ext λ a. elim (Bool-cases (a == p)) [
  | inl e ↦ elim (Bool-cases (a == q)) [
    | inl e' ↦ rw (e, e') (map-fewer-more (Option.map more (h a)))
    | inr e' ↦ rw (e, e') (map-fewer-more (h a))
  ]
  | inr e ↦ rw e refl
]

write-edit :
    (p : Ptr) (f : Inode → Inode) (h : Heap) (i : Inode)
    → h p ≡ some i
    → write h p (some (f i)) ≡ edit p f h
unfolding write edit
write-edit p f h i e = fun_ext λ a. elim (Bool-cases (a == p)) [
  | inl here ↦ rw (here, ap h (==→eq a p here) ∙ e) refl
  | inr away ↦ rw away refl
]

module _ (D : Device) where
  abbrev pub with_heap : Fs D → Heap → Fs D
  with_heap s h = record s { heap = h }

  -- `s`, with one reference more to `p`.
  abbrev pub referred : Fs D → Ptr → Fs D
  referred s p = with_heap s (raise_refs p s.heap)

  pub load_done :
      (p : Ptr) (s : Fs D) (i : Inode) → p ≢ null → s.heap p ≡ some i → load D p s ≡ done i s
  unfolding load
  load_done p s i real e =
      let there : (p == 0) ≡ false = ground (arith, real) in rw (load, there, e) refl

  pub assign_done :
      (p : Ptr) (f : Inode → Inode) (s : Fs D) (i : Inode)
      → p ≢ null
      → s.heap p ≡ some i
      → assign D p f s ≡ done tt (with_heap s (edit p f s.heap))
  unfolding assign store
  assign_done p f s i real e =
      bind_done (load D p) (λ j. store D p (some (f j))) s s i (load_done p s i real e)
      ∙ ap (λ h. done tt (with_heap s h)) (write-edit p f s.heap i e)

  pub get_node_done :
      (p : Ptr) (s : Fs D) (i : Inode)
      → p ≢ null
      → s.heap p ≡ some i
      → get_node D p s ≡ done tt (referred s p)
  unfolding get_node
  get_node_done p s i real e = assign_done p more s i real e

  pub put_node_done :
      (p : Ptr) (s : Fs D) (i : Inode)
      → p ≢ null
      → s.heap p ≡ some i
      → i.node.references ≢ 0
      → IsQuiet i.node
      → put_node D p s ≡ done tt (with_heap s (lower_refs p s.heap))
  unfolding put_node ◌>>=◌ ◌>>◌ store stop_if
  put_node_done p s i real e some_refs quiet =
      let there : (i.node.references == 0) ≡ false = ground (arith, some_refs) in
      bind_done (load D p)
        (λ j.
          stop_if (λ s. j.node.references == 0)
          >> (stop_if (stops_warning D p j.node) >> store D p (some (fewer j))))
        s s i (load_done p s i real e)
      ∙ stop_if-false (λ s. i.node.references == 0)
          (stop_if (stops_warning D p i.node) >> store D p (some (fewer i))) s there
      ∙ stop_if-false (stops_warning D p i.node) (store D p (some (fewer i))) s
          (quiet_lem (i.node.references == 1 && not (p == s.root)) i.node quiet)
      ∙ (ap (λ h. done tt (with_heap s h)) (write-edit p fewer s.heap i e))
