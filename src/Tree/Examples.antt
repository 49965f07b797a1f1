-- ===== src/Tree/Examples.antt =====
-- A volume with the nodes of two directories in memory: the root has the file "a" and the directory "b", which
-- has the file "c".
use exfat.Prelude.{
  ℕ, ◌+◌, ◌≤◌, List, replicate, ◌≡◌, refl, true, false, none, some, [], ◌∷◌, ◌==◌, if◌then◌else◌,
  arith, inl, inr,
}
use exfat.Prelude.Int.{pos}
use exfat.Prelude.Effect.{done}
use exfat.Bitmap.{Endian, div_round_up}
use exfat.Dirent.{
  Node, allocate_node, attrib_dir, ename_max, check_entries, check_types, parsed,
  parse_file_entries,
}
use exfat.Dirent.Check.{filled}
use exfat.Tree.Entries.{flushed}
use exfat.Tree.Readdir.{empty_node}
use exfat.Tree.Flushed.{reread, parse_file_entries-flushed}
use exfat.Io.Examples.{byte_device}
use exfat.Tree.{Inode, Heap, Fs, tree_attach, tree_detach}
use exfat.Tree.References.{with_heap}
use exfat.Tree.Links.{nil, cons, IsChildren}
use exfat.Tree.Attached.{tree_attach-IsChildren}
use exfat.Tree.Detached.{IsDetached, tree_detach-IsChildren}
use exfat.Tree.Slots.{find_slot, shrink_directory}
use exfat.Tree.Shrunk.{IsShrunk, shrink_directory-IsShrunk}
use exfat.Utf.{utf16_length}
use exfat.Tree.Marks.{NodesFrom, ended, node_and}
use exfat.Tree.Room.{IsPlaced, find_slot-IsPlaced}

abbrev directory : Node
directory = record allocate_node {
  attrib = attrib_dir;
  is_cached = true;
  size = 4096;
  valid_size = 4096;
}

abbrev pub root_inode : Inode
root_inode = record { parent = 0; child = 2; next = 0; prev = 0; node = directory }

abbrev pub a_inode : Inode
a_inode = record {
  parent = 1;
  child = 0;
  next = 3;
  prev = 0;
  node = record allocate_node { name = 0x61 ∷ 0 ∷ []; continuations = 2 };
}

abbrev pub b_inode : Inode
b_inode = record {
  parent = 1;
  child = 4;
  next = 0;
  prev = 2;
  node = record directory { name = 0x62 ∷ 0 ∷ []; entry_offset = 96; continuations = 2 };
}

-- Its entries leave one free before them.
abbrev pub c_inode : Inode
c_inode = record {
  parent = 3;
  child = 0;
  next = 0;
  prev = 0;
  node = record allocate_node { name = 0x63 ∷ 0 ∷ []; entry_offset = 32; continuations = 2 };
}

abbrev new_inode : Inode
new_inode = record { parent = 0; child = 0; next = 0; prev = 0; node = allocate_node }

abbrev pub nodes_heap : Heap
nodes_heap p =
    if p == 1
    then some root_inode
    else if p == 2
    then some a_inode
    else if p == 3
    then some b_inode
    else if p == 4
    then some c_inode
    else if p == 5
    then some new_inode
    else none

abbrev pub volume : Fs byte_device
volume = record {
  ef = record {
    dev = λ i. i;
    sb = record {
      fat_sector_start = 0;
      cluster_sector_start = 1;
      cluster_count = 6;
      sector_bits = 9;
      spc_bits = 3;
    };
    cmap = record { start_cluster = 2; size = 6; chunk = 0x07 ∷ []; chunk_size = 6; dirty = false };
  };
  volume = record {
    cluster_count = 6;
    sector_bits = 9;
    spc_bits = 3;
    time_bits = 31;
    timezone = pos 0;
    upcase = [];
    ask_to_fix = false;
  };
  label = [];
  ro = false;
  atime = true;
  root = 1;
  heap = nodes_heap;
  unused = 6;
}

root-IsChildren : IsChildren nodes_heap 1 (2 ∷ 3 ∷ [])
root-IsChildren = record {
  inode = root_inode;
  real = omega arith;
  holds = refl;
  apart = (omega arith, (omega arith, tt));
  links =
      cons (omega arith) refl refl refl (omega arith, tt)
        (cons (omega arith) refl refl refl tt nil);
}

b-IsChildren : IsChildren nodes_heap 3 (4 ∷ [])
b-IsChildren = record {
  inode = b_inode;
  real = omega arith;
  holds = refl;
  apart = (omega arith, tt);
  links = cons (omega arith) refl refl refl tt nil;
}

tree_attach-IsChildren_example :
    (h : Heap) × ((tree_attach byte_device 3 5 volume ≡ done tt (with_heap byte_device volume h))
      × IsChildren h 3 (5 ∷ 4 ∷ []))
tree_attach-IsChildren_example =
    tree_attach-IsChildren byte_device volume 3 5 (4 ∷ []) new_inode b-IsChildren (omega arith)
      (omega arith) (omega arith, tt) refl refl refl

tree_detach-IsChildren_example :
    (h : Heap) × ((tree_detach byte_device 3 volume ≡ done tt (with_heap byte_device volume h))
      × IsDetached nodes_heap h 1 (2 ∷ 3 ∷ []) 3 b_inode)
tree_detach-IsChildren_example =
    tree_detach-IsChildren byte_device volume 1 3 (2 ∷ 3 ∷ []) b_inode root-IsChildren
      (inr (inl refl)) refl

nodes_of_b : NodesFrom nodes_heap 4 (c_inode.node ∷ [])
nodes_of_b = node_and (omega arith) refl ended

find_slot-IsPlaced_example :
    IsPlaced Endian.little byte_device
      (pos 9)
      3
      3
      b_inode.node
      (c_inode.node ∷ [])
      volume
      (find_slot byte_device Endian.little (pos 9) 200 3 3 volume)
find_slot-IsPlaced_example =
    find_slot-IsPlaced Endian.little byte_device (pos 9) 200 3 3 volume b_inode (c_inode.node ∷ [])
      (omega arith) (omega arith) (omega arith) refl refl refl nodes_of_b (omega arith, tt)
      (omega arith) (omega arith)

-- The entries of the file "a".
abbrev a_meta1 : List ℕ
a_meta1 = 0x85 ∷ 2 ∷ replicate 30 0

abbrev a_meta2 : List ℕ
a_meta2 = 0xc0 ∷ 1 ∷ 0 ∷ 1 ∷ replicate 28 0

abbrev a_names : List (List ℕ)
a_names = (0xc1 ∷ 0 ∷ 0x61 ∷ replicate 29 0) ∷ []

abbrev written : Node
written = record allocate_node {
  attrib = 0x20;
  valid_size = 4500;
  size = 5000;
  start_cluster = 3;
  is_contiguous = true;
  mtime = pos 1000000000;
  atime = pos 1000000001;
}

a_types : check_entries (a_meta1 ∷ a_meta2 ∷ a_names) ≡ true
unfolding check_types
a_types = refl

parse_file_entries-flushed_example :
    parse_file_entries volume.volume
      (empty_node allocate_node 96)
      (flushed volume.volume written (a_meta1 ∷ a_meta2 ∷ a_names))
    ≡ parsed (
        reread volume.volume written
          (filled volume.volume (empty_node allocate_node 96) (a_meta1 ∷ a_meta2 ∷ a_names)))
parse_file_entries-flushed_example =
    parse_file_entries-flushed volume.volume 96 written a_meta1 a_meta2 a_names
      (record {
        attrib = omega arith;
        valid_size = omega arith;
        size = omega arith;
        start_cluster = omega arith;
      })
      (record {
        valid_data = omega arith;
        empty = λ e. absurd (omega (arith, e));
        start = λ p. (omega arith, omega arith);
        fits = omega arith;
        whole = λ d. absurd (d refl);
      })
      refl refl a_types (omega arith) (omega arith)

c_named : 1 + 2 ≤ 2 + div_round_up (utf16_length (0x63 ∷ 0 ∷ [])) ename_max
unfolding utf16_length
c_named = omega arith

shrink_directory-IsShrunk_example :
    IsShrunk byte_device Endian.little
      (pos 9)
      3
      (c_inode.node ∷ [])
      volume
      (shrink_directory byte_device Endian.little (pos 9) 9 3 200 volume)
shrink_directory-IsShrunk_example =
    shrink_directory-IsShrunk byte_device Endian.little (pos 9) 9 3 200 volume b_inode
      (c_inode.node ∷ []) (omega arith) refl refl refl (omega arith) nodes_of_b (omega arith)
      (c_named, tt) (tt, tt)
