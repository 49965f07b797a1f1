-- ===== src/Tree/Changes.antt =====
-- Deleting, creating and renaming entries, and the label: libexfat/node.c.
use exfat.Prelude.{
  ℕ, zero, suc, ◌+◌, ◌-◌, true, not, List, [], ◌∷◌, ◌++◌, ◌==◌, if◌then◌else◌, get_or, take,
  replicate, length,
}
use exfat.Prelude.Int.{ℤ}
use exfat.Prelude.Effect.{
  enotempty, eisdir, enotdir, eilseq, enametoolong, Op, ◌>>=◌, ◌>>◌, pure, raise, stop, gets,
  modify, raise_if, branch, recover, attempt,
}
use exfat.Bitmap.{Endian, div_round_up}
use exfat.Timestamp.{unix2exfat}
use exfat.Checksum.{calc_checksum, calc_name_hash}
use exfat.Utf.{Converted, utf16_length, utf8_to_utf16}
use exfat.Dirent.{ename_max, put, unit_bytes, name_entries_of, new_entries, new_node}
use exfat.Chain.{Device}
use exfat.Io.{is_dir, update_mtime}
use exfat.Tree.{
  Ptr, null, Inode, over_node, Fs, load, assign, allocate, get_node, put_node, tree_attach,
  tree_detach,
}
use exfat.Tree.Entries.{entry_size, read_entries, write_entries, flush_node, putting, erase_node}
use exfat.Tree.Special.{entry_label}
use exfat.Tree.Readdir.{is_enoent, cache_directory}
use exfat.Tree.Slots.{find_slot, shrink_directory}

-- The entries under a new name: the first two as they were, but for what depends on the name.
unfoldable pub renamed : List ℕ → List ℕ → List (List ℕ) → List (List ℕ)
unfolding utf16_length name_entries_of calc_checksum calc_name_hash
renamed upcase name entries =
    let name_length = utf16_length name in
    let name_entries = div_round_up name_length ename_max in
    let hash = calc_name_hash upcase (take name_length name) 0 in
    let meta1 = put 1 (get_or entries 0 []) 1 (1 + name_entries) in
    let meta2 = put 2 (put 1 (get_or entries 1 []) 3 name_length) 4 hash in
    let rest = meta2 ∷ name_entries_of name_entries name in
    put 2 meta1 2 (calc_checksum (meta1 ∷ rest)) ∷ rest

-- The entry of a label; an empty one is marked as deleted.
unfoldable pub label_entry : List ℕ → List ℕ
unfolding utf16_length unit_bytes
label_entry label =
    (if utf16_length label == 0 then 0x03 else entry_label)
    ∷ utf16_length label
    ∷ unit_bytes (take ename_max label)

module _ (D : Device) (e : Endian) (now : ℤ) where
  abbrev pub unlinked : Inode → Inode
  unlinked = over_node λ node. record node { is_unlinked = true }

  -- The node stays until the last reference to it is put. It is unlinked whether the directory could be
  -- shrunk or not.
  unfoldable pub delete : ℕ → Ptr → Op (Fs D) (Unit {0})
  unfolding ◌>>=◌ ◌>>◌ raise attempt recover load assign get_node put_node erase_node tree_detach
      shrink_directory flush_node putting
  delete fuel p = do
    i ← load D p
    get_node D i.parent
    recover (erase_node D e now p) λ rc. put_node D i.parent >> raise rc
    tree_detach D p
    recover (shrink_directory D e now fuel i.parent i.node.entry_offset) λ rc. (do
      assign D p unlinked
      attempt (flush_node D e now i.parent)
      put_node D i.parent
      raise rc)
    assign D p unlinked
    assign D i.parent (over_node (update_mtime now))
    putting D e now i.parent (flush_node D e now i.parent)

  unfoldable pub unlink : ℕ → Ptr → Op (Fs D) (Unit {0})
  unfolding ◌>>=◌ ◌>>◌ load raise_if delete
  unlink fuel p = do i ← load D p; raise_if eisdir λ s. is_dir i.node; delete fuel p

  unfoldable pub rmdir : ℕ → Ptr → Op (Fs D) (Unit {0})
  unfolding ◌>>=◌ ◌>>◌ load raise_if cache_directory delete
  rmdir fuel p = do
    i ← load D p
    raise_if enotdir λ s. not (is_dir i.node)
    cache_directory D e now fuel p
    cached ← load D p
    raise_if enotempty λ s. not (cached.child == null)
    delete fuel p

  unfoldable pub commit_entry : Ptr → List ℕ → ℕ → ℕ → Op (Fs D) (Unit {0})
  unfolding ◌>>=◌ ◌>>◌ gets write_entries allocate tree_attach new_entries new_node
  commit_entry dir name offset attrib = do
    volume ← gets λ s. s.volume
    let stamp = unix2exfat volume.timezone now
    write_entries D e now dir (new_entries volume name attrib stamp) offset
    p ← allocate D (record {
      parent = null;
      child = null;
      next = null;
      prev = null;
      node = new_node volume name offset attrib stamp;
    })
    tree_attach D dir p

  unfoldable pub rename_entry : Ptr → Ptr → List ℕ → ℕ → Op (Fs D) (Unit {0})
  unfolding ◌>>=◌ ◌>>◌ gets load assign read_entries erase_node write_entries renamed tree_detach
      tree_attach
  rename_entry dir p name new_offset = do
    i ← load D p
    entries ← read_entries D now i.parent 2 i.node.entry_offset
    upcase ← gets λ s. s.volume.upcase
    erase_node D e now p
    assign D p (
        over_node λ node. record node {
          entry_offset = new_offset;
          continuations = 1 + div_round_up (utf16_length name) ename_max;
        })
    write_entries D e now dir (renamed upcase name entries) new_offset
    assign D p (over_node λ node. record node { name = name })
    tree_detach D p
    tree_attach D dir p

  -- The loop has no end but that of the directory; it runs on fuel.
  unfoldable pub find_label : ℕ → ℕ → Op (Fs D) ℕ
  unfolding ◌>>=◌ stop gets branch pure read_entries
  find_label zero offset = stop
  find_label (suc fuel) offset = do
    root ← gets λ s. s.root
    entries ← read_entries D now root 1 offset
    branch (λ s. get_or (get_or entries 0 []) 0 0 == entry_label) (pure offset)
        (find_label fuel (offset + entry_size))

  unfoldable pub set_label_units : ℕ → List ℕ → List ℕ → Op (Fs D) (Unit {0})
  unfolding ◌>>=◌ ◌>>◌ gets raise branch recover modify find_label find_slot write_entries
      label_entry
  set_label_units fuel label units = do
    root ← gets λ s. s.root
    offset ←
        recover (find_label fuel 0)
          λ rc. branch (λ s. is_enoent rc) (find_slot D e now fuel root 1) (raise rc)
    write_entries D e now root (label_entry units ∷ []) offset
    modify λ s. record s { label = label }

  -- The array of units is filled with zeros first.
  unfoldable pub set_label : ℕ → List ℕ → Op (Fs D) (Unit {0})
  unfolding raise stop utf8_to_utf16 set_label_units
  set_label fuel label = elim (utf8_to_utf16 label (ename_max + 1)) [
    | Converted.done units ↦
        set_label_units fuel label (units ++ replicate (ename_max + 1 - length units) 0)
    | Converted.illegal ↦ raise eilseq
    | Converted.too_long ↦ raise enametoolong
    | Converted.out_of_fuel ↦ stop
  ]
