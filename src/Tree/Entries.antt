-- ===== src/Tree/Entries.antt =====
-- Entries of a directory on the device: reading, writing, erasing and flushing them, in libexfat/node.c,
-- with `exfat_flush` and `flush_nodes` of libexfat/cluster.c.
use exfat.Prelude.{
  ℕ, zero, suc, ◌+◌, ◌*◌, ◌/◌, ◌%◌, ◌^◌, bit_and, bit_or, false, not, ◌&&◌, none, some, List, [],
  ◌∷◌, ◌++◌, ◌==◌, if◌then◌else◌, get_or, set, length, take, drop, map,
}
use exfat.Prelude.Int.{ℤ, pos}
use exfat.Prelude.Effect.{
  eio, enoent, bug, failed, done, Op, ◌>>=◌, ◌>>◌, pure, raise, stop_if, gets, or_stop, raise_if,
  branch, recover,
}
use exfat.Bitmap.{Endian, bmap_size, word_bytes}
use exfat.Timestamp.{unix2exfat}
use exfat.Checksum.{calc_checksum}
use exfat.Dirent.{Node, Volume, put, check_types, check_entries, flag_always1, flag_contiguous}
use exfat.Chain.{Device, c2o}
use exfat.Io.{generic_pread, generic_pwrite, is_dir}
use exfat.Tree.{Ptr, null, Inode, over_node, Fs, load, assign, on_file, get_node, put_node}

abbrev pub entry_size : ℕ
entry_size = 32

-- `n` entries from the start of the bytes.
unfoldable pub entries_of : ℕ → List ℕ → List (List ℕ)
entries_of zero bytes = []
entries_of (suc n) bytes = take entry_size bytes ∷ entries_of n (drop entry_size bytes)

unfoldable pub entry_bytes : List (List ℕ) → List ℕ
entry_bytes [] = []
entry_bytes (entry ∷ entries) = entry ++ entry_bytes entries

-- `type &= ~EXFAT_ENTRY_VALID`, for a type of 8 bits.
abbrev pub erased : List ℕ → List ℕ
erased entry = set entry 0 (bit_and (get_or entry 0 0) 0x7f)

-- The fields of a node in the first two entries.
unfoldable pub flushed_meta1 : Volume → Node → List ℕ → List ℕ
flushed_meta1 v node meta1 =
    let mtime = unix2exfat v.timezone node.mtime in
    let atime = unix2exfat v.timezone node.atime in
    let e1 = put 2 meta1 4 node.attrib in
    let e2 = put 1 (put 1 e1 21 mtime.centisec) 23 mtime.tzoffset in
    let e3 = put 2 (put 2 e2 14 mtime.date) 12 mtime.time in
    put 2 (put 2 (put 1 e3 24 atime.tzoffset) 18 atime.date) 16 atime.time

unfoldable pub flushed_meta2 : Node → List ℕ → List ℕ
flushed_meta2 node meta2 =
    let flags =
      if not (node.size == 0) && node.is_contiguous
      then bit_or flag_always1 flag_contiguous
      else flag_always1 in
    put 1 (put 4 (put 8 (put 8 meta2 8 node.valid_size) 24 node.size) 20 node.start_cluster) 1 flags

unfoldable pub flushed : Volume → Node → List (List ℕ) → List (List ℕ)
unfolding flushed_meta1 flushed_meta2 calc_checksum
flushed v node entries =
    let meta1 = flushed_meta1 v node (get_or entries 0 []) in
    let rest = flushed_meta2 node (get_or entries 1 []) ∷ drop 2 entries in
    put 2 meta1 2 (calc_checksum (meta1 ∷ rest)) ∷ rest

-- The bytes of the words of the bitmap.
unfoldable pub word_list : ℕ → ℕ → List ℕ
word_list zero word = []
word_list (suc n) word = word % 2 ^ 8 ∷ word_list n (word / 2 ^ 8)

unfoldable pub chunk_bytes : Endian → List ℕ → List ℕ
unfolding word_list
chunk_bytes e [] = []
chunk_bytes e (word ∷ chunk) = word_list (word_bytes e) word ++ chunk_bytes e chunk

module _ (D : Device) where
  -- A read that ends at the end of the directory is ENOENT, one that is cut short EIO.
  unfoldable pub read_entries : ℤ → Ptr → ℕ → ℕ → Op (Fs D) (List (List ℕ))
  unfolding ◌>>=◌ ◌>>◌ pure raise stop_if gets branch load on_file recover entries_of
  read_entries now dir n offset = do
    i ← load D dir
    stop_if λ s. not (is_dir i.node)
    atime ← gets λ s. s.atime
    part ←
        recover (on_file D dir (generic_pread D atime now (n * entry_size) (pos offset)))
          λ rc. raise eio
    branch (λ s. part.0 == n * entry_size) (pure (entries_of n part.1))
        (branch (λ s. part.0 == 0) (raise enoent) (raise eio))

  module _ (e : Endian) (now : ℤ) where
    unfoldable pub write_entries : Ptr → List (List ℕ) → ℕ → Op (Fs D) (Unit {0})
    unfolding ◌>>=◌ ◌>>◌ pure raise stop_if branch load on_file recover entry_bytes
    write_entries dir entries offset = do
      i ← load D dir
      stop_if λ s. not (is_dir i.node)
      let bytes = entry_bytes entries
      size ←
          recover
            (on_file D dir (generic_pwrite D e (not (i.parent == null)) now bytes (pos offset)))
            λ rc. raise eio
      branch (λ s. size == length bytes) (pure tt) (raise eio)

    -- `exfat_flush`.
    unfoldable pub flush_cmap : ℕ → Op (Fs D) (Unit {0})
    unfolding chunk_bytes bmap_size
    flush_cmap offset s =
        elim (D.pwrite s.ef.dev
          (take (bmap_size e s.ef.cmap.chunk_size) (chunk_bytes e s.ef.cmap.chunk)) offset) [
            | none ↦ failed eio s
            | some dev ↦ done tt (record s {
              ef = record s.ef { dev = dev; cmap = record s.ef.cmap { dirty = false } };
            })
          ]

    unfoldable pub flush : Op (Fs D) (Unit {0})
    unfolding ◌>>=◌ ◌>>◌ pure or_stop branch flush_cmap
    flush =
        branch (λ s. s.ef.cmap.dirty)
          (do offset ← or_stop λ s. c2o s.ef.sb s.ef.cmap.start_cluster; flush_cmap offset)
          (pure tt)

    unfoldable pub flush_entries : Ptr → Inode → Op (Fs D) (Unit {0})
    unfolding ◌>>=◌ ◌>>◌ pure gets raise_if read_entries write_entries flushed check_types assign
        flush
    flush_entries p i = do
      entries ← read_entries now i.parent (1 + i.node.continuations) i.node.entry_offset
      raise_if eio λ s. not (check_entries entries)
      volume ← gets λ s. s.volume
      write_entries i.parent (flushed volume i.node entries) i.node.entry_offset
      assign D p (over_node λ node. record node { is_dirty = false })
      flush

    -- Nodes that are clean, or unlinked, are not flushed.
    unfoldable pub flush_node : Ptr → Op (Fs D) (Unit {0})
    unfolding ◌>>=◌ ◌>>◌ pure branch stop_if load flush_entries
    flush_node p = do
      i ← load D p
      branch (λ s. not i.node.is_dirty) (pure tt)
          (do stop_if λ s. s.ro; branch (λ s. i.parent == null) (pure tt) (flush_entries p i))

    unfoldable pub erase_entries : Ptr → ℕ → ℕ → Op (Fs D) (Unit {0})
    unfolding ◌>>=◌ read_entries write_entries
    erase_entries dir n offset = do
      entries ← read_entries now dir n offset
      write_entries dir (map erased entries) offset

    -- A call, after which a reference is given back, also when it fails.
    unfoldable pub putting : Ptr → Op (Fs D) (Unit {0}) → Op (Fs D) (Unit {0})
    unfolding ◌>>=◌ ◌>>◌ recover raise put_node
    putting p m = do recover m λ rc. put_node D p >> raise rc; put_node D p

    unfoldable pub erase_node : Ptr → Op (Fs D) (Unit {0})
    unfolding ◌>>=◌ ◌>>◌ load get_node erase_entries flush_node putting
    erase_node p = do
      i ← load D p
      get_node D i.parent
      putting i.parent (do
        erase_entries i.parent (1 + i.node.continuations) i.node.entry_offset
        flush_node i.parent)

    -- The nodes below `p`, then `p`, on fuel.
    unfoldable mutual
      unfolding ◌>>=◌ ◌>>◌ pure branch load flush_node

      pub flush_nodes : ℕ → Ptr → Op (Fs D) (Unit {0})
      flush_nodes zero p = λ s. bug
      flush_nodes (suc fuel) p = do i ← load D p; flush_children fuel i.child; flush_node p

      pub flush_children : ℕ → Ptr → Op (Fs D) (Unit {0})
      flush_children zero p = λ s. bug
      flush_children (suc fuel) p =
          branch (λ s. p == null) (pure tt)
            (do flush_nodes fuel p; i ← load D p; flush_children fuel i.next)

    -- `exfat_flush_nodes`.
    unfoldable pub flush_all : ℕ → Op (Fs D) (Unit {0})
    unfolding ◌>>=◌ gets flush_nodes
    flush_all fuel = do root ← gets λ s. s.root; flush_nodes fuel root
