-- ===== src/Tree/Paths.antt =====
-- The calls that take a path: `exfat_mknod`, `exfat_mkdir` and `exfat_rename` of libexfat/node.c.
use exfat.Prelude.{ℕ, zero, suc, ◌+◌, Bool, true, false, not, List, ◌==◌}
use exfat.Prelude.Int.{ℤ}
use exfat.Prelude.Effect.{
  eexist, einval, enotdir, eisdir, Op, ◌>>=◌, ◌>>◌, pure, raise, stop, gets, raise_if, branch,
  recover, attempt,
}
use exfat.Bitmap.{Endian, div_round_up}
use exfat.Utf.{utf16_length}
use exfat.Dirent.{ename_max, attrib_dir}
use exfat.Chain.{Device, sb_cluster_size}
use exfat.Io.{is_dir, update_mtime}
use exfat.Tree.{Ptr, null, over_node, Fs, load, assign, put_node, truncate_node, cleanup_node}
use exfat.Tree.Entries.{flush_node, putting}
use exfat.Tree.Slots.{find_slot}
use exfat.Tree.Changes.{delete, unlink, rmdir, commit_entry, rename_entry}
use exfat.Lookup.Walk.{lookup, split}

abbrev pub attrib_arch : ℕ
attrib_arch = 0x20

abbrev pub slot_entries : List ℕ → ℕ
slot_entries name = 2 + div_round_up (utf16_length name) ename_max

module _ (D : Device) (e : Endian) (now : ℤ) (fuel : ℕ) where
  unfoldable pub create_in : Ptr → List ℕ → ℕ → Op (Fs D) (Unit {0})
  unfolding ◌>>=◌ ◌>>◌ find_slot commit_entry assign flush_node utf16_length
  create_in dir name attrib = do
    offset ← find_slot D e now fuel dir (slot_entries name)
    commit_entry D e now dir name offset attrib
    assign D dir (over_node (update_mtime now))
    flush_node D e now dir

  unfoldable pub create : List ℕ → ℕ → Op (Fs D) (Unit {0})
  unfolding ◌>>=◌ ◌>>◌ branch raise put_node putting split create_in
  create path attrib = do
    (dir, existing, name) ← split D e now fuel path
    branch (λ s. existing == null) (putting D e now dir (create_in dir name attrib))
        (do put_node D existing; put_node D dir; raise eexist)

  unfoldable pub mknod : List ℕ → Op (Fs D) (Unit {0})
  unfolding create
  mknod path = create path attrib_arch

  -- A directory has a cluster at least; without it the entry is deleted again.
  unfoldable pub first_cluster : Ptr → Op (Fs D) (Unit {0})
  unfolding ◌>>=◌ ◌>>◌ gets raise recover attempt truncate_node flush_node delete put_node
  first_cluster p = do
    size ← gets λ s. sb_cluster_size s.ef.sb
    recover (do truncate_node D e now p size true; flush_node D e now p)
        λ rc. (do attempt (delete D e now fuel p); put_node D p; raise rc)
    put_node D p

  -- A directory that is not found after it was created is left as it is.
  unfoldable pub mkdir : List ℕ → Op (Fs D) (Unit {0})
  unfolding ◌>>=◌ ◌>>◌ pure branch recover lookup create first_cluster
  mkdir path = do
    create path attrib_dir
    p ← recover (lookup D e now fuel path) λ rc. pure null
    branch (λ s. p == null) (pure tt) (first_cluster p)

  -- Whether `p` is among `dir` and what is above it; on fuel.
  unfoldable pub is_above : ℕ → Ptr → Ptr → Op (Fs D) Bool
  unfolding ◌>>=◌ stop pure branch load
  is_above zero p dir = stop
  is_above (suc n) p dir =
      branch (λ s. dir == null) (pure false)
        (branch (λ s. p == dir) (pure true) (do d ← load D dir; is_above n p d.parent))

  unfoldable pub is_below : Ptr → Ptr → Op (Fs D) Bool
  unfolding ◌>>=◌ pure branch load is_above
  is_below p dir = do i ← load D p; branch (λ s. is_dir i.node) (is_above fuel p dir) (pure false)

  -- The node that has the new name is removed; its clusters are freed even when that fails.
  unfoldable pub remove_target : Ptr → Ptr → Op (Fs D) (Unit {0})
  unfolding ◌>>=◌ ◌>>◌ raise raise_if branch recover attempt load rmdir unlink put_node cleanup_node
      putting
  remove_target p existing = do
    i ← load D p
    target ← load D existing
    recover
        (putting D e now existing (
          branch (λ s. is_dir target.node)
            (branch (λ s. is_dir i.node) (rmdir D e now fuel existing) (raise enotdir))
            (branch (λ s. not (is_dir i.node)) (unlink D e now fuel existing) (raise eisdir))))
        λ rc. attempt (cleanup_node D e now existing) >> raise rc
    cleanup_node D e now existing

  unfoldable pub replace_target : Ptr → Ptr → Op (Fs D) (Unit {0})
  unfolding pure branch put_node remove_target
  replace_target p existing =
      branch (λ s. existing == null) (pure tt)
        (branch (λ s. existing == p) (put_node D existing) (remove_target p existing))

  unfoldable pub move_entry : Ptr → Ptr → Ptr → List ℕ → Op (Fs D) (Unit {0})
  unfolding ◌>>=◌ ◌>>◌ replace_target find_slot rename_entry flush_node utf16_length
  move_entry p dir existing name = do
    replace_target p existing
    offset ← find_slot D e now fuel dir (slot_entries name)
    rename_entry D e now dir p name offset
    flush_node D e now dir

  -- The target is not below the source.
  unfoldable pub rename_node : Ptr → Ptr → Ptr → List ℕ → Op (Fs D) (Unit {0})
  unfolding ◌>>=◌ ◌>>◌ pure raise branch put_node putting is_below move_entry
  rename_node p dir existing name = do
    below ← is_below p dir
    branch (λ s. below)
        (do
          branch (λ s. existing == null) (pure tt) (put_node D existing)
          put_node D dir
          put_node D p
          raise einval)
        (putting D e now p (putting D e now dir (move_entry p dir existing name)))

  unfoldable pub rename : List ℕ → List ℕ → Op (Fs D) (Unit {0})
  unfolding ◌>>=◌ ◌>>◌ raise recover lookup split put_node rename_node
  rename old_path new_path = do
    p ← lookup D e now fuel old_path
    (dir, existing, name) ← recover (split D e now fuel new_path) λ rc. put_node D p >> raise rc
    rename_node p dir existing name
