-- ===== src/Tree/Readdir.antt =====
-- Reading a directory into nodes: `readdir`, `exfat_cache_directory` and `exfat_reset_cache` of
-- libexfat/node.c. The loops over entries and over nodes run on fuel, and stop the program without it.
use exfat.Prelude.{
  ℕ, zero, suc, ◌+◌, ◌*◌, Bool, true, false, not, ◌&&◌, Option, none, some, [], ◌==◌, get_or,
}
use exfat.Prelude.Int.{ℤ}
use exfat.Prelude.Effect.{
  Rc, eio, enoent, Op, ◌>>=◌, ◌>>◌, pure, raise, stop, stop_if, gets, raise_if, branch, recover,
}
use exfat.Bitmap.{Endian}
use exfat.Dirent.{
  Node, allocate_node, entry_file, is_nameable, stopped, refused, parsed, parse_file_entries,
}
use exfat.Chain.{Device}
use exfat.Tree.{Ptr, null, over_node, Fs, load, store, assign, allocate, put_node, tree_detach}
use exfat.Tree.Entries.{entry_size, read_entries}
use exfat.Tree.Special.{read_special}

abbrev pub is_enoent : Rc → Bool
is_enoent enoent = true
is_enoent _ = false

abbrev pub empty_node : Node → ℕ → Node
empty_node node offset = record node { entry_offset = offset }

module _ (D : Device) (e : Endian) (now : ℤ) where
  -- The node is attached by the caller; one that is refused is freed.
  unfoldable pub parse_file_entry : Ptr → ℕ → ℕ → Op (Fs D) (Ptr × ℕ)
  unfolding ◌>>=◌ ◌>>◌ pure gets raise stop read_entries allocate parse_file_entries raise_if
  parse_file_entry parent offset n = do
    entries ← read_entries D now parent n offset
    volume ← gets λ s. s.volume
    node ← elim (parse_file_entries volume (empty_node allocate_node offset) entries) [
      | stopped ↦ stop
      | refused ↦ raise eio
      | parsed node ↦ pure node
    ]
    p ← allocate D (record { parent = null; child = null; next = null; prev = null; node = node })
    pure (p, offset + n * entry_size)

  unfoldable pub readdir : ℕ → Ptr → ℕ → Op (Fs D) (Ptr × ℕ)
  unfolding ◌>>=◌ ◌>>◌ stop read_entries branch parse_file_entry read_special
  readdir zero parent offset = stop
  readdir (suc fuel) parent offset = do
    entries ← read_entries D now parent 1 offset
    let entry = get_or entries 0 []
    branch (λ s. get_or entry 0 0 == entry_file)
        (parse_file_entry parent offset (1 + get_or entry 1 0))
        (do read_special D e now parent entry offset; readdir fuel parent (offset + entry_size))

  -- The nodes of a list are freed.
  unfoldable pub free_list : ℕ → Ptr → Op (Fs D) (Unit {0})
  unfolding ◌>>=◌ ◌>>◌ pure stop branch load store
  free_list zero p = stop
  free_list (suc fuel) p =
      branch (λ s. p == null) (pure tt) (do i ← load D p; store D p none; free_list fuel i.next)

  unfoldable pub roll_back : ℕ → Ptr → Rc → Op (Fs D) (Option (Ptr × ℕ))
  unfolding ◌>>=◌ ◌>>◌ load free_list assign raise
  roll_back fuel dir rc = do
    d ← load D dir
    free_list fuel d.child
    assign D dir λ i. record i { child = null }
    raise rc

  -- The next node, or none at the end of the directory; after any other error there are no nodes.
  unfoldable pub next_node : ℕ → Ptr → ℕ → Op (Fs D) (Option (Ptr × ℕ))
  unfolding ◌>>=◌ pure recover branch readdir roll_back
  next_node fuel dir offset =
      recover (do found ← readdir fuel dir offset; pure (some found))
        λ rc. branch (λ s. is_enoent rc) (pure none) (roll_back fuel dir rc)

  unfoldable pub link_last : Ptr → Ptr → Ptr → Op (Fs D) (Unit {0})
  unfolding ◌>>◌ assign branch
  link_last dir current node = do
    assign D node λ i. record i { parent = dir }
    branch (λ s. current == null) (assign D dir λ i. record i { child = node })
        (do
          assign D current λ i. record i { next = node }
          assign D node λ i. record i { prev = current })

  unfoldable pub cache_from : ℕ → ℕ → Ptr → ℕ → Ptr → Op (Fs D) (Unit {0})
  unfolding ◌>>=◌ ◌>>◌ stop pure next_node link_last assign
  cache_from zero fuel dir offset current = stop
  cache_from (suc n) fuel dir offset current = do
    found ← next_node fuel dir offset
    elim found [
      | none ↦ assign D dir (over_node λ node. record node { is_cached = true })
      | some (node, offset') ↦ link_last dir current node >> cache_from n fuel dir offset' node
    ]

  unfoldable pub cache_directory : ℕ → Ptr → Op (Fs D) (Unit {0})
  unfolding ◌>>=◌ load branch pure cache_from
  cache_directory fuel dir = do
    d ← load D dir
    branch (λ s. d.node.is_cached) (pure tt) (cache_from fuel fuel dir 0 null)

  -- The references that are left are given back.
  unfoldable pub put_all : ℕ → Ptr → Op (Fs D) (Unit {0})
  unfolding ◌>>◌ pure put_node
  put_all zero p = pure tt
  put_all (suc n) p = put_node D p >> put_all n p

  unfoldable pub forget : Ptr → Op (Fs D) (Unit {0})
  unfolding ◌>>=◌ ◌>>◌ load assign stop_if is_nameable put_all
  forget p = do
    assign D p (over_node λ node. record node { is_cached = false })
    i ← load D p
    stop_if λ s. not (i.node.references == 0) && not (is_nameable i.node.name)
    stop_if λ s. not (p == s.root) && i.node.is_dirty
    put_all i.node.references p

  unfoldable mutual
    unfolding ◌>>=◌ ◌>>◌ stop branch load store tree_detach forget

    pub reset_node : ℕ → Ptr → Op (Fs D) (Unit {0})
    reset_node zero p = stop
    reset_node (suc fuel) p = do
      i ← load D p
      branch (λ s. i.child == null) (forget p) (do drop_child fuel i.child; reset_node fuel p)

    pub drop_child : ℕ → Ptr → Op (Fs D) (Unit {0})
    drop_child zero p = stop
    drop_child (suc fuel) p = do reset_node fuel p; tree_detach D p; store D p none

  unfoldable pub reset_cache : ℕ → Op (Fs D) (Unit {0})
  unfolding ◌>>=◌ gets reset_node
  reset_cache fuel = do root ← gets λ s. s.root; reset_node fuel root
