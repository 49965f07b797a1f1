-- ===== src/Tree/Last.antt =====
-- The last node of a directory: the loop of shrink_directory of libexfat/node.c, over a list.
use exfat.Prelude.{
  ℕ, ◌+◌, ◌<◌, ◌≤◌, ◌⊎◌, Option, none, some, List, [], ◌∷◌, arith, ltb, if◌then◌else◌, Bool-cases,
  inl, inr,
}
use exfat.Bitmap.{div_round_up}
use exfat.Utf.{utf16_length}
use exfat.Dirent.{Node, ename_max}
use exfat.Tree.Slots.{Last, followed, final, later, entries_up_to}
use exfat.Tree.Marks.{first_entry, end_entry, AllNodes}

-- The entries of two nodes do not overlap.
abbrev pub IsApart : Node → Node → Type 0
IsApart a b = (end_entry a ≤ first_entry b) ⊎ (end_entry b ≤ first_entry a)

abbrev pub AreApart : List Node → Type 0
AreApart [] = Unit {0}
AreApart (node ∷ nodes) = AllNodes (IsApart node) nodes × AreApart nodes

-- A node has no more entries than its name takes.
abbrev pub IsNamed : Node → Type 0
IsNamed node = 1 + node.continuations ≤ 2 + div_round_up (utf16_length node.name) ename_max

-- The loop over the nodes.
abbrev pub last_of : ℕ → List Node → Option Node → Last
last_of deleted_offset [] found = final found
last_of deleted_offset (node ∷ nodes) found =
    if ltb deleted_offset node.entry_offset
    then followed
    else last_of deleted_offset nodes (later found node)

-- What follows the search: every node ends within the entries that are kept.
abbrev pub Keeps : List Node → Last → Type 0
Keeps nodes followed = Unit {0}
Keeps nodes (final found) = AllNodes (λ node. end_entry node ≤ entries_up_to found) nodes

-- The same, with one node in hand already.
abbrev KeepsFrom : Node → List Node → Last → Type 0
KeepsFrom m nodes followed = Unit {0}
KeepsFrom m nodes (final none) = ⊥
KeepsFrom m nodes (final (some k)) =
    (m.entry_offset ≤ k.entry_offset)
    × (end_entry m ≤ entries_up_to (some k))
    × AllNodes (λ node. end_entry node ≤ entries_up_to (some k)) nodes

first-entries_up_to :
    (a k : Node) → a.entry_offset ≤ k.entry_offset → first_entry a ≤ entries_up_to (some k)
unfolding entries_up_to
first-entries_up_to a k le = omega arith

-- The node in hand is passed over for a later one.
KeepsFrom-later :
    (m node : Node) (nodes : List Node) (l : Last)
    → IsApart m node
    → m.entry_offset < node.entry_offset
    → KeepsFrom node nodes l
    → KeepsFrom m (node ∷ nodes) l
KeepsFrom-later m node nodes followed apart lt keeps = tt
KeepsFrom-later m node nodes (final none) apart lt keeps = keeps
KeepsFrom-later m node nodes (final (some k)) apart lt (le, ends, rest) =
    let before : end_entry m ≤ first_entry node = elim apart [
      | inl h ↦ h
      | inr h ↦ absurd (omega (arith, h, lt))
    ] in
    (omega (arith, lt, le), omega (arith, before, first-entries_up_to node k le), (ends, rest))

-- The node in hand is kept.
KeepsFrom-found :
    (m node : Node) (nodes : List Node) (l : Last)
    → IsApart m node
    → node.entry_offset ≤ m.entry_offset
    → KeepsFrom m nodes l
    → KeepsFrom m (node ∷ nodes) l
KeepsFrom-found m node nodes followed apart le keeps = tt
KeepsFrom-found m node nodes (final none) apart le keeps = keeps
KeepsFrom-found m node nodes (final (some k)) apart le (further, ends, rest) =
    let before : end_entry node ≤ first_entry m = elim apart [
      | inl h ↦ absurd (omega (arith, h, le))
      | inr h ↦ h
    ] in
    (further, ends, (omega (arith, before, first-entries_up_to m k further), rest))

last_of-KeepsFrom :
    (deleted_offset : ℕ) (m : Node) (nodes : List Node)
    → IsNamed m
    → AllNodes IsNamed nodes
    → AllNodes (IsApart m) nodes
    → AreApart nodes
    → KeepsFrom m nodes (last_of deleted_offset nodes (some m))
unfolding entries_up_to
last_of-KeepsFrom deleted_offset m [] named all apart pairs =
    (omega arith, omega (arith, named), tt)
last_of-KeepsFrom deleted_offset m (node ∷ nodes) named all apart pairs =
    elim (Bool-cases (ltb deleted_offset node.entry_offset)) [
      | inl behind ↦ rw behind tt
      | inr before ↦ elim (Bool-cases (ltb m.entry_offset node.entry_offset)) [
        | inl lt ↦
            rw (before, lt)
              (KeepsFrom-later m node nodes (last_of deleted_offset nodes (some node)) apart.0
                (ground (arith, lt))
                (last_of-KeepsFrom deleted_offset node nodes all.0 all.1 pairs.0 pairs.1))
        | inr le ↦
            rw (before, le)
              (KeepsFrom-found m node nodes (last_of deleted_offset nodes (some m)) apart.0
                (ground (arith, le))
                (last_of-KeepsFrom deleted_offset m nodes named all.1 apart.1 pairs.1))
      ]
    ]

KeepsFrom-Keeps :
    (m : Node) (nodes : List Node) (l : Last) → KeepsFrom m nodes l → Keeps (m ∷ nodes) l
KeepsFrom-Keeps m nodes followed keeps = tt
KeepsFrom-Keeps m nodes (final none) keeps = absurd keeps
KeepsFrom-Keeps m nodes (final (some k)) (le, ends, rest) = (ends, rest)

pub last_of-Keeps :
    (deleted_offset : ℕ) (nodes : List Node)
    → AllNodes IsNamed nodes
    → AreApart nodes
    → Keeps nodes (last_of deleted_offset nodes none)
last_of-Keeps deleted_offset [] named pairs = tt
last_of-Keeps deleted_offset (node ∷ nodes) named pairs =
    elim (Bool-cases (ltb deleted_offset node.entry_offset)) [
      | inl behind ↦ rw behind tt
      | inr before ↦ rw before (
          KeepsFrom-Keeps node nodes (last_of deleted_offset nodes (some node))
            (last_of-KeepsFrom deleted_offset node nodes named.0 named.1 pairs.0 pairs.1))
    ]
