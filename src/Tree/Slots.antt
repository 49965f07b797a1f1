-- ===== src/Tree/Slots.antt =====
-- Room for entries in a directory: `find_slot`, `check_slot` and `shrink_directory` of libexfat/node.c.
-- The walks over the nodes of a directory, and over its entries, run on fuel.
use exfat.Prelude.{
  ℕ, zero, suc, ◌+◌, ◌*◌, ◌-◌, ◌/◌, bit_and, Bool, true, false, not, ◌||◌, Option, none, some, List,
  [], ◌∷◌, ◌==◌, ltb, leb, if◌then◌else◌, get_or, replicate,
}
use exfat.Prelude.Int.{ℤ}
use exfat.Prelude.Effect.{
  Rc, einval, Op, ◌>>=◌, ◌>>◌, pure, raise, stop, stop_if, gets, raise_if, branch, recover,
}
use exfat.Bitmap.{Endian, bmap_size, bmap_get, bmap_set, div_round_up, round_up}
use exfat.Utf.{utf16_length}
use exfat.Dirent.{Node, ename_max, entry_valid}
use exfat.Chain.{Device, sb_cluster_size}
use exfat.Io.{is_dir}
use exfat.Tree.{Ptr, null, Fs, load, truncate_node}
use exfat.Tree.Entries.{entry_size, read_entries}

abbrev pub is_einval : Rc → Bool
is_einval einval = true
is_einval _ = false

-- Whether an entry is valid.
unfoldable pub any_valid : List (List ℕ) → Bool
any_valid [] = false
any_valid (entry ∷ entries) = not (bit_and (get_or entry 0 0) entry_valid == 0) || any_valid entries

-- Where the search ends: at a slot, or behind `contiguous` free entries that end the directory.
pub data Slot : Type 0 where
  slot : ℕ → Slot
  short : (contiguous offset : ℕ) → Slot

-- The last node of the directory, unless an entry follows the one that was deleted.
pub data Last : Type 0 where
  followed : Last
  final : Option Node → Last

abbrev pub later : Option Node → Node → Option Node
later none node = some node
later (some found) node = if ltb found.entry_offset node.entry_offset then some node else some found

-- The entries up to the end of the last node.
unfoldable pub entries_up_to : Option Node → ℕ
unfolding utf16_length
entries_up_to none = 0
entries_up_to (some node) =
    node.entry_offset / entry_size + 2 + div_round_up (utf16_length node.name) ename_max

unfoldable pub shrunk_size : ℕ → Option Node → ℕ
unfolding entries_up_to
shrunk_size cluster_size last_node =
    let new_size = round_up (entries_up_to last_node * entry_size) cluster_size in
    if new_size == 0 then cluster_size else new_size

module _ (e : Endian) where
  -- The bits of `n` entries from the entry `index`.
  unfoldable pub mark : List ℕ → ℕ → ℕ → List ℕ
  unfolding bmap_set
  mark dmap index zero = dmap
  mark dmap index (suc n) = mark (bmap_set e dmap index) (index + 1) n

  abbrev pub mark_node : List ℕ → Node → List ℕ
  mark_node dmap node = mark dmap (node.entry_offset / entry_size) (1 + node.continuations)

  abbrev pub empty_map : ℕ → List ℕ
  empty_map count = replicate (bmap_size e count) 0

module _ (D : Device) where
  -- The entries of the root directory that are of no node are seen on the device only.
  unfoldable pub check_slot : ℤ → Ptr → ℕ → ℕ → Op (Fs D) (Unit {0})
  unfolding ◌>>=◌ ◌>>◌ pure branch raise_if read_entries any_valid
  check_slot now dir offset n =
      branch (λ s. not (dir == s.root)) (pure tt)
        (do entries ← read_entries D now dir n offset; raise_if einval λ s. any_valid entries)

  -- Whether the slot is free; the error EINVAL is that it is not.
  unfoldable pub slot_is_free : ℤ → Ptr → ℕ → ℕ → Op (Fs D) Bool
  unfolding ◌>>◌ pure branch raise recover check_slot
  slot_is_free now dir offset n =
      recover (do check_slot now dir offset n; pure true)
        λ rc. branch (λ s. is_einval rc) (pure false) (raise rc)

  -- The nodes from `p` on, marked in the map of the entries.
  unfoldable pub mark_nodes : Endian → ℕ → List ℕ → Ptr → Op (Fs D) (List ℕ)
  unfolding ◌>>=◌ stop pure branch load mark
  mark_nodes e zero dmap p = stop
  mark_nodes e (suc fuel) dmap p =
      branch (λ s. p == null) (pure dmap)
        (do i ← load D p; mark_nodes e fuel (mark_node e dmap i.node) i.next)

  -- The entries from `i` on, of which there are `count`; `contiguous` free ones lie before it, from
  -- `offset` on.
  unfoldable pub scan_slots :
      Endian → ℤ → Ptr → ℕ → List ℕ → ℕ → ℕ → (i contiguous offset : ℕ) → Op (Fs D) Slot
  unfolding ◌>>=◌ stop pure branch bmap_get slot_is_free
  scan_slots e now dir n dmap count zero i contiguous offset = stop
  scan_slots e now dir n dmap count (suc fuel) i contiguous offset =
      let start = if contiguous == 0 then i * entry_size else offset in
      branch (λ s. leb count i) (pure (short contiguous offset))
        (branch (λ s. not (bmap_get e dmap i == 0))
          (scan_slots e now dir n dmap count fuel (i + 1) 0 offset)
          (branch (λ s. not (contiguous + 1 == n))
            (scan_slots e now dir n dmap count fuel (i + 1) (contiguous + 1) start)
            (do
              free ← slot_is_free now dir start n
              branch (λ s. free) (pure (slot start))
                  (scan_slots e now dir n dmap count fuel (i - contiguous + 1) 0 start))))

  module _ (e : Endian) (now : ℤ) where
    -- No suitable slot: the directory grows.
    unfoldable pub extend : Ptr → ℕ → Slot → Op (Fs D) ℕ
    unfolding ◌>>=◌ ◌>>◌ pure gets load truncate_node
    extend dir n (slot offset) = pure offset
    extend dir n (short contiguous offset) = do
      d ← load D dir
      size ← gets λ s. sb_cluster_size s.ef.sb
      truncate_node D e now dir (round_up (d.node.size + (n - contiguous) * entry_size) size) true
      pure (if contiguous == 0 then d.node.size else offset)

    unfoldable pub find_slot : ℕ → Ptr → ℕ → Op (Fs D) ℕ
    unfolding ◌>>=◌ ◌>>◌ stop_if load mark_nodes scan_slots extend bmap_size
    find_slot fuel dir n = do
      d ← load D dir
      stop_if λ s. not d.node.is_cached
      let count = d.node.size / entry_size
      dmap ← mark_nodes e fuel (empty_map e count) d.child
      found ← scan_slots e now dir n dmap count fuel 0 0 0
      extend dir n found

    unfoldable pub last_from : ℕ → ℕ → Ptr → Option Node → Op (Fs D) Last
    unfolding ◌>>=◌ stop pure branch load
    last_from zero deleted_offset p found = stop
    last_from (suc fuel) deleted_offset p found =
        branch (λ s. p == null) (pure (final found))
          (do
            i ← load D p
            branch (λ s. ltb deleted_offset i.node.entry_offset) (pure followed)
                (last_from fuel deleted_offset i.next (later found i.node)))

    unfoldable pub shrink_to : Ptr → Last → Op (Fs D) (Unit {0})
    unfolding ◌>>=◌ pure gets branch load shrunk_size truncate_node
    shrink_to dir followed = pure tt
    shrink_to dir (final node) = do
      d ← load D dir
      size ← gets λ s. sb_cluster_size s.ef.sb
      branch (λ s. shrunk_size size node == d.node.size) (pure tt)
          (truncate_node D e now dir (shrunk_size size node) true)

    unfoldable pub shrink_directory : ℕ → Ptr → ℕ → Op (Fs D) (Unit {0})
    unfolding ◌>>=◌ ◌>>◌ load stop_if last_from shrink_to
    shrink_directory fuel dir deleted_offset = do
      d ← load D dir
      stop_if λ s. not (is_dir d.node)
      stop_if λ s. not d.node.is_cached
      found ← last_from fuel deleted_offset d.child none
      shrink_to dir found
