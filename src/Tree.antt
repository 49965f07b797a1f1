-- ===== src/Tree.antt =====
-- The tree of nodes in memory: libexfat/node.c. The nodes stand in a heap, as the calls share them: the
-- links parent, child, next and prev are addresses. An access through NULL, or to a node that was freed,
-- is the outcome bug, as a call of exfat_bug is. `now` is time(NULL).
pub mod References
pub mod Links
pub mod Attached
pub mod Bypassed
pub mod Detached
pub mod Entries
pub mod Special
pub mod Readdir
pub mod Flushed
pub mod Slots
pub mod Marks
pub mod Scan
pub mod Room
pub mod Last
pub mod Shrunk
pub mod Changes
pub mod Paths
pub mod Examples
use exfat.Prelude.{
  ℕ, zero, suc, ◌+◌, ◌-◌, Bool, true, false, not, ◌&&◌, Option, none, some, List, [], ◌∷◌, ◌==◌,
  if◌then◌else◌,
}
use exfat.Prelude.Int.{ℤ}
use exfat.Prelude.Effect.{
  Outcome, bug, failed, done, Op, ◌>>=◌, ◌>>◌, pure, gets, or_stop, modify, stop_if, branch,
}
use exfat.Bitmap.{Endian}
use exfat.Dirent.{Node, Volume, is_nameable}
use exfat.Chain.{Device, Exfat, File}
use exfat.Chain.Resize.{truncate}

abbrev pub Ptr : Type 0
Ptr = ℕ

abbrev pub null : Ptr
null = 0

-- `struct exfat_node`, with its links.
pub record Inode : Type 0 where
  pub parent : Ptr
  pub child : Ptr
  pub next : Ptr
  pub prev : Ptr
  pub node : Node

abbrev pub Heap : Type 0
Heap = Ptr → Option Inode

unfoldable pub write : Heap → Ptr → Option Inode → Heap
write h p c a = if a == p then c else h a

-- The fields of a node that an assignment changes.
abbrev pub over_node : (Node → Node) → Inode → Inode
over_node f i = record i { node = f i.node }

module _ (D : Device) where
  -- `struct exfat`; `unused` is what malloc returns next.
  pub record Fs : Type 0 where
    pub ef : Exfat D
    pub volume : Volume
    pub label : List ℕ
    pub ro : Bool
    pub atime : Bool
    pub root : Ptr
    pub heap : Heap
    pub unused : Ptr

  unfoldable pub load : Ptr → Op Fs Inode
  load p s = if p == null then bug else elim (s.heap p) [ none ↦ bug | some i ↦ done i s ]

  unfoldable pub store : Ptr → Option Inode → Op Fs (Unit {0})
  store p c s = done tt (record s { heap = write s.heap p c })

  -- An assignment to fields of `*p`.
  unfoldable pub assign : Ptr → (Inode → Inode) → Op Fs (Unit {0})
  unfolding ◌>>=◌ load store
  assign p f = load p >>= λ i. store p (some (f i))

  -- A call on the volume and the node at `p`.
  abbrev pub put_back : Ptr → Inode → Fs → File D → Fs
  put_back p i s file = record s {
    ef = file.ef;
    heap = write s.heap p (some (record i { node = file.node }));
  }

  unfoldable pub on_file : {A : Type 0} → Ptr → Op (File D) A → Op Fs A
  on_file p m s = if p == null then bug else elim (s.heap p) [
    | none ↦ bug
    | some i ↦ elim (m (record { ef = s.ef; node = i.node })) [
      | bug ↦ bug
      | failed rc file ↦ failed rc (put_back p i s file)
      | done a file ↦ done a (put_back p i s file)
    ]
  ]

  unfoldable pub allocate : Inode → Op Fs Ptr
  allocate i s =
      done s.unused (record s { heap = write s.heap s.unused (some i); unused = s.unused + 1 })

  unfoldable pub get_node : Ptr → Op Fs (Unit {0})
  unfolding assign
  get_node p = assign p (over_node λ node. record node { references = node.references + 1 })

  -- Whether the name of a node is shown for its warning, and cannot be: it is put back dirty, by the last
  -- reference to it.
  abbrev pub stops_warning : Ptr → Node → Fs → Bool
  stops_warning p node s =
      node.references == 1 && not (p == s.root) && node.is_dirty && not (is_nameable node.name)

  -- The counter must not go below 0.
  unfoldable pub put_node : Ptr → Op Fs (Unit {0})
  unfolding ◌>>=◌ ◌>>◌ load store stop_if is_nameable
  put_node p = do
    i ← load p
    stop_if λ s. i.node.references == 0
    stop_if (stops_warning p i.node)
    store p (some (over_node (λ node. record node { references = node.references - 1 }) i))

  unfoldable pub link_child : Ptr → Ptr → Op Fs (Unit {0})
  unfolding ◌>>◌ assign branch pure
  link_child node child =
      branch (λ s. child == null) (pure tt)
        (do assign child λ i. record i { prev = node }; assign node λ i. record i { next = child })

  unfoldable pub tree_attach : Ptr → Ptr → Op Fs (Unit {0})
  unfolding ◌>>=◌ ◌>>◌ load assign link_child
  tree_attach dir node = do
    assign node λ i. record i { parent = dir }
    d ← load dir
    link_child node d.child
    assign dir λ i. record i { child = node }

  -- The node before, or the directory, leads to the node behind.
  unfoldable pub skip_forward : Inode → Op Fs (Unit {0})
  unfolding assign branch
  skip_forward i =
      branch (λ s. i.prev == null) (assign i.parent λ d. record d { child = i.next })
        (assign i.prev λ p. record p { next = i.next })

  unfoldable pub skip_back : Inode → Op Fs (Unit {0})
  unfolding assign branch pure
  skip_back i =
      branch (λ s. i.next == null) (pure tt) (assign i.next λ n. record n { prev = i.prev })

  unfoldable pub tree_detach : Ptr → Op Fs (Unit {0})
  unfolding ◌>>=◌ ◌>>◌ load assign skip_forward skip_back
  tree_detach node = do
    i ← load node
    skip_forward i
    skip_back i
    assign node λ n. record n { parent = null; prev = null; next = null }

  -- A call after which `*p` is freed, even after an error.
  unfoldable pub freeing : Ptr → Op Fs (Unit {0}) → Op Fs (Unit {0})
  freeing p m s = elim (m s) [
    | bug ↦ bug
    | failed rc s' ↦ failed rc (record s' { heap = write s'.heap p none })
    | done u s' ↦ done u (record s' { heap = write s'.heap p none })
  ]

  module _ (e : Endian) (now : ℤ) where
    -- `exfat_truncate` looks at the parent of the node.
    unfoldable pub truncate_node : Ptr → ℕ → Bool → Op Fs (Unit {0})
    unfolding ◌>>=◌ load on_file
    truncate_node p size erase = do
      i ← load p
      on_file p (truncate D e (not (i.parent == null)) now size erase)

    unfoldable pub cleanup_node : Ptr → Op Fs (Unit {0})
    unfolding ◌>>=◌ ◌>>◌ load store stop_if branch pure truncate_node freeing
    cleanup_node p = do
      i ← load p
      stop_if λ s. not (i.node.references == 0)
      branch (λ s. i.node.is_unlinked) (freeing p (truncate_node p 0 true)) (pure tt)
