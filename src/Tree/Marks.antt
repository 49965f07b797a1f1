-- ===== src/Tree/Marks.antt =====
-- The entries of the nodes of a directory, and the map of entries in use that find_slot draws up
-- (libexfat/node.c).
use exfat.Prelude.{
  ℕ, zero, suc, ◌+◌, ◌*◌, ◌/◌, ◌<◌, ◌≤◌, ◌≡◌, ◌≢◌, refl, sym, subst, ◌∙◌, ◌⊎◌, true, false, some,
  List, [], ◌∷◌, arith, ◌==◌, leb, leb→le, max, Bool-cases, ==→ne, inl, inr, length,
  length-replicate, length-set,
}
use exfat.Bitmap.{Endian, bmap_set, bmap_size, word_bytes}
use exfat.Bitmap.Words.{used, used-set, inside-lt}
use exfat.Dirent.{Node}
use exfat.Tree.{Ptr, null, Inode, Heap}
use exfat.Tree.Entries.{entry_size}
use exfat.Tree.Slots.{mark, mark_node, empty_map}

abbrev pub first_entry : Node → ℕ
first_entry node = node.entry_offset / entry_size

abbrev pub end_entry : Node → ℕ
end_entry node = node.entry_offset / entry_size + (1 + node.continuations)

-- The nodes that follow each other from an address on.
pub data NodesFrom (h : Heap) : Ptr → List Node → Type 0 where
  ended : NodesFrom h null []
  node_and :
      {p : Ptr} {i : Inode} {nodes : List Node}
      → p ≢ null
      → h p ≡ some i
      → NodesFrom h i.next nodes
      → NodesFrom h p (i.node ∷ nodes)

abbrev pub AllNodes : (Node → Type 0) → List Node → Type 0
AllNodes P [] = Unit {0}
AllNodes P (node ∷ nodes) = P node × AllNodes P nodes

covers_words : (e : Endian) (count : ℕ) → count ≤ word_bytes e * 8 * bmap_size e count
unfolding bmap_size
covers_words Endian.little count = omega arith
covers_words Endian.big count = omega arith

module _ (e : Endian) where
  abbrev pub marks : List ℕ → List Node → List ℕ
  marks dmap [] = dmap
  marks dmap (node ∷ nodes) = marks (mark_node e dmap node) nodes

  abbrev Covers : List ℕ → ℕ → Type 0
  Covers dmap end = end ≤ word_bytes e * 8 * length dmap

  length-bmap_set : (dmap : List ℕ) (c : ℕ) → length (bmap_set e dmap c) ≡ length dmap
  unfolding bmap_set
  length-bmap_set dmap c = length-set dmap _ _

  length-mark : (dmap : List ℕ) (index n : ℕ) → length (mark e dmap index n) ≡ length dmap
  unfolding mark
  length-mark dmap index zero = refl
  length-mark dmap index (suc n) =
      length-mark (bmap_set e dmap index) (index + 1) n ∙ length-bmap_set dmap index

  Covers-next :
      (dmap : List ℕ) (index n : ℕ)
      → Covers dmap (index + suc n)
      → Covers (bmap_set e dmap index) (index + 1 + n)
  Covers-next dmap index n covers =
      let same : index + 1 + n ≡ index + suc n = omega arith in
      subst (λ k. k ≤ word_bytes e * 8 * length (bmap_set e dmap index)) (sym same)
        (subst (λ l. index + suc n ≤ word_bytes e * 8 * l) (sym (length-bmap_set dmap index))
          covers)

  in_map :
      (dmap : List ℕ) (index n : ℕ)
      → Covers dmap (index + suc n)
      → index / word_bytes e / 8 < length dmap
  in_map dmap index n covers = inside-lt e dmap index (omega (arith, covers))

  still_used :
      (dmap : List ℕ) (index n k : ℕ)
      → Covers dmap (index + n)
      → used e dmap k ≡ true
      → used e (mark e dmap index n) k ≡ true
  unfolding mark
  still_used dmap index zero k covers h = h
  still_used dmap index (suc n) k covers h =
      still_used (bmap_set e dmap index) (index + 1) n k (Covers-next dmap index n covers) (
        used-set e dmap index (in_map dmap index n covers) k
        ∙ elim (Bool-cases (index == k)) [ inl b ↦ rw b refl | inr b ↦ rw b h ])

  used-mark :
      (dmap : List ℕ) (index n k : ℕ)
      → Covers dmap (index + n)
      → index ≤ k
      → k < index + n
      → used e (mark e dmap index n) k ≡ true
  unfolding mark
  used-mark dmap index zero k covers low high = absurd (omega arith)
  used-mark dmap index (suc n) k covers low high = elim (Bool-cases (index == k)) [
    | inl here ↦
        still_used (bmap_set e dmap index) (index + 1) n k (Covers-next dmap index n covers)
          (used-set e dmap index (in_map dmap index n covers) k ∙ rw here refl)
    | inr later ↦
        used-mark (bmap_set e dmap index) (index + 1) n k (Covers-next dmap index n covers)
          (omega (arith, low, ==→ne index k later)) (omega (arith, high))
  ]

  abbrev EndsWithin : List ℕ → Node → Type 0
  EndsWithin dmap node = Covers dmap (end_entry node)

  covers_mark :
      (dmap : List ℕ) (node : Node) (nodes : List Node)
      → AllNodes (EndsWithin dmap) nodes
      → AllNodes (EndsWithin (mark_node e dmap node)) nodes
  covers_mark dmap node [] h = tt
  covers_mark dmap node (next ∷ nodes) h = (
    subst (λ l. end_entry next ≤ word_bytes e * 8 * l)
        (sym (length-mark dmap (first_entry node) (1 + node.continuations))) h.0,
    covers_mark dmap node nodes h.1,
  )

  kept_used :
      (dmap : List ℕ) (nodes : List Node) (k : ℕ)
      → AllNodes (EndsWithin dmap) nodes
      → used e dmap k ≡ true
      → used e (marks dmap nodes) k ≡ true
  kept_used dmap [] k within h = h
  kept_used dmap (node ∷ nodes) k within h =
      kept_used (mark_node e dmap node) nodes k (covers_mark dmap node nodes within.1)
        (still_used dmap (first_entry node) (1 + node.continuations) k within.0 h)

  -- An entry that the map leaves free is of no node.
  abbrev FreeOf : ℕ → Node → Type 0
  FreeOf k node = first_entry node ≤ k → k < end_entry node → ⊥

  pub free_lem :
      (dmap : List ℕ) (nodes : List Node) (k : ℕ)
      → AllNodes (EndsWithin dmap) nodes
      → used e (marks dmap nodes) k ≡ false
      → AllNodes (FreeOf k) nodes
  free_lem dmap [] k within h = tt
  free_lem dmap (node ∷ nodes) k within h = (
    λ low high.
        let marked =
          kept_used (mark_node e dmap node) nodes k (covers_mark dmap node nodes within.1)
            (used-mark dmap (first_entry node) (1 + node.continuations) k within.0 low high) in
        ground (arith, marked, h),
    free_lem (mark_node e dmap node) nodes k (covers_mark dmap node nodes within.1) h,
  )

  -- The entries from `low` up to `high` are free in a map.
  abbrev pub FreeRange : List ℕ → ℕ → ℕ → Type 0
  FreeRange dmap low high = (k : ℕ) → low ≤ k → k < high → used e dmap k ≡ false

  -- Where a search may end, in a directory of `count` entries.
  pub apart_lem :
      (first high n : ℕ) (nodes : List Node)
      → 0 < n
      → first ≤ high
      → AllNodes (λ node. (first + n ≤ high) ⊎ (end_entry node ≤ high)) nodes
      → ((k : ℕ) → first ≤ k → k < high → AllNodes (FreeOf k) nodes)
      → AllNodes (λ node. (first + n ≤ first_entry node) ⊎ (end_entry node ≤ first)) nodes
  apart_lem first high n [] some_entries order bounds free = tt
  apart_lem first high n (node ∷ nodes) some_entries order bounds free = (
    elim (Bool-cases (leb (first + n) (first_entry node))) [
      | inl before ↦ inl (leb→le (first + n) (first_entry node) before)
      | inr behind ↦ elim (Bool-cases (leb (end_entry node) first)) [
        | inl after ↦ inr (leb→le (end_entry node) first after)
        | inr over ↦ absurd (shared (ground (arith, behind)) (ground (arith, over)) bounds.0)
      ]
    ],
    apart_lem first high n nodes some_entries order bounds.1 λ k low below. (free k low below).1,
  )
    where
      shared :
          first_entry node < first + n
          → first < end_entry node
          → (first + n ≤ high) ⊎ (end_entry node ≤ high)
          → ⊥
      shared a b c =
          let k = max first (first_entry node) in
          (free k (omega arith) (omega (arith, a, b, c, some_entries))).0 (omega arith)
            (omega (arith, a, b))

  pub covers_empty : (count : ℕ) → count ≤ word_bytes e * 8 * length (empty_map e count)
  covers_empty count =
      subst (λ l. count ≤ word_bytes e * 8 * l) (sym (length-replicate (bmap_size e count) 0))
        (covers_words e count)

  abbrev pub Within : ℕ → List Node → Type 0
  Within count nodes = AllNodes (λ node. end_entry node ≤ count) nodes

  pub covered :
      (count : ℕ) (nodes : List Node)
      → Within count nodes
      → AllNodes (EndsWithin (empty_map e count)) nodes
  covered count [] h = tt
  covered count (node ∷ nodes) h = (omega (arith, h.0, covers_empty count), covered count nodes h.1)

  pub right_of :
      (a high : ℕ) (nodes : List Node)
      → Within high nodes
      → AllNodes (λ node. (a ≤ high) ⊎ (end_entry node ≤ high)) nodes
  right_of a high [] h = tt
  right_of a high (node ∷ nodes) h = (inr h.0, right_of a high nodes h.1)

  pub left_of :
      (a high : ℕ) (nodes : List Node)
      → a ≤ high
      → AllNodes (λ node. (a ≤ high) ⊎ (end_entry node ≤ high)) nodes
  left_of a high [] h = tt
  left_of a high (node ∷ nodes) h = (inl h, left_of a high nodes h)
