-- ===== src/Dirent.antt =====
-- Directory entries: libexfat/node.c over the layouts of libexfat/exfatfs.h. An entry is 32 bytes.
-- Messages are not modelled; the calls of `exfat_get_name` for them, which may stop the program, are.
pub mod Bytes
pub mod Grammar
pub mod Check
pub mod Create
mod Examples
use exfat.Prelude.{
  ℕ, zero, suc, ◌+◌, ◌-◌, ◌*◌, ◌/◌, ◌%◌, ◌^◌, bit_and, bit_or, Bool, true, false, not, ◌&&◌, ◌||◌,
  Option, none, some, List, [], ◌∷◌, ◌++◌, ◌==◌, ltb, leb, if◌then◌else◌, get_or, set, take, drop,
  replicate, length, map,
}
use exfat.Prelude.Int.{ℤ, pos}
use exfat.Bitmap.{div_round_up, cluster_free, first_data_cluster}
use exfat.Timestamp.{Stamp, exfat2unix, unix2exfat}
use exfat.Checksum.{calc_checksum, calc_name_hash}
use exfat.Utf.{Converted, utf16_length, utf16_to_utf8}

abbrev pub entry_valid : ℕ
entry_valid = 0x80

abbrev pub entry_file : ℕ
entry_file = 0x85

abbrev pub entry_file_info : ℕ
entry_file_info = 0xc0

abbrev pub entry_file_name : ℕ
entry_file_name = 0xc1

abbrev pub entry_file_tail : ℕ
entry_file_tail = 0xe0

abbrev pub ename_max : ℕ
ename_max = 15

abbrev pub name_max : ℕ
name_max = 255

abbrev pub utf8_name_buffer_max : ℕ
utf8_name_buffer_max = name_max * 3 + 1

-- `exfat_get_name` of libexfat/utils.c; `none` is `exfat_bug`.
unfoldable pub get_name : List ℕ → Option (List ℕ)
unfolding utf16_to_utf8
get_name name = elim (utf16_to_utf8 (take name_max name) utf8_name_buffer_max) [
  | Converted.done out ↦ some out
  | Converted.illegal ↦ none
  | Converted.too_long ↦ none
  | Converted.out_of_fuel ↦ none
]

-- Whether the name can be shown in a message.
unfoldable pub is_nameable : List ℕ → Bool
unfolding get_name
is_nameable name = elim (get_name name) [ none ↦ false | some out ↦ true ]

abbrev pub flag_always1 : ℕ
flag_always1 = 1

abbrev pub flag_contiguous : ℕ
flag_contiguous = 2

abbrev pub attrib_dir : ℕ
attrib_dir = 0x10

-- A little-endian field of `n` bytes at an offset.
abbrev pub field : ℕ → List ℕ → ℕ → ℕ
field zero entry off = 0
field (suc n) entry off = get_or entry off 0 + 2 ^ 8 * field n entry (suc off)

abbrev pub put : ℕ → List ℕ → ℕ → ℕ → List ℕ
put zero entry off v = entry
put (suc n) entry off v = put n (set entry off (v % 2 ^ 8)) (suc off) (v / 2 ^ 8)

-- `n` UTF-16 units from the start of the bytes.
unfoldable pub units : ℕ → List ℕ → List ℕ
units zero bytes = []
units (suc n) bytes = field 2 bytes 0 ∷ units n (drop 2 bytes)

unfoldable pub unit_bytes : List ℕ → List ℕ
unit_bytes [] = []
unit_bytes (unit ∷ name) = unit % 2 ^ 8 ∷ unit / 2 ^ 8 % 2 ^ 8 ∷ unit_bytes name

-- What the code reads of `struct exfat`; `ask_to_fix` is the answer to a repair prompt.
pub record Volume : Type 0 where
  pub cluster_count : ℕ
  pub sector_bits : ℕ
  pub spc_bits : ℕ
  pub time_bits : ℕ
  pub timezone : ℤ
  pub upcase : List ℕ
  pub ask_to_fix : Bool

abbrev pub cluster_size : Volume → ℕ
cluster_size v = 2 ^ v.sector_bits * 2 ^ v.spc_bits

abbrev pub cluster_invalid : Volume → ℕ → Bool
cluster_invalid v c = ltb c first_data_cluster || leb v.cluster_count (c - first_data_cluster)

-- `struct exfat_node` without its links.
pub record Node : Type 0 where
  pub references : ℕ
  pub fptr_index : ℕ
  pub fptr_cluster : ℕ
  pub entry_offset : ℕ
  pub start_cluster : ℕ
  pub attrib : ℕ
  pub continuations : ℕ
  pub is_contiguous : Bool
  pub is_cached : Bool
  pub is_dirty : Bool
  pub is_unlinked : Bool
  pub valid_size : ℕ
  pub size : ℕ
  pub mtime : ℤ
  pub atime : ℤ
  pub name : List ℕ

abbrev pub allocate_node : Node
allocate_node = record {
  references = 0;
  fptr_index = 0;
  fptr_cluster = 0;
  entry_offset = 0;
  start_cluster = 0;
  attrib = 0;
  continuations = 0;
  is_contiguous = false;
  is_cached = false;
  is_dirty = false;
  is_unlinked = false;
  valid_size = 0;
  size = 0;
  mtime = pos 0;
  atime = pos 0;
  name = replicate (name_max + 1) 0;
}

abbrev pub init_node_meta1 : Volume → Node → List ℕ → Node
init_node_meta1 v node meta1 = record node {
  attrib = field 2 meta1 4;
  continuations = get_or meta1 1 0;
  mtime = exfat2unix v.time_bits v.timezone (record {
    date = field 2 meta1 14;
    time = field 2 meta1 12;
    centisec = get_or meta1 21 0;
    tzoffset = get_or meta1 23 0;
  });
  atime = exfat2unix v.time_bits v.timezone (record {
    date = field 2 meta1 18;
    time = field 2 meta1 16;
    centisec = 0;
    tzoffset = get_or meta1 24 0;
  });
}

abbrev pub init_node_meta2 : Node → List ℕ → Node
init_node_meta2 node meta2 = record node {
  valid_size = field 8 meta2 8;
  size = field 8 meta2 24;
  start_cluster = field 4 meta2 20;
  fptr_cluster = field 4 meta2 20;
  is_contiguous = not (bit_and (get_or meta2 1 0) flag_contiguous == 0);
}

-- The names of the entries, side by side.
unfoldable pub entry_names : List (List ℕ) → List ℕ
unfolding units
entry_names [] = []
entry_names (entry ∷ entries) = units ename_max (drop 2 entry) ++ entry_names entries

-- They are copied to the start of the name.
abbrev pub init_node_name : Node → List (List ℕ) → Node
init_node_name node entries = record node {
  name = entry_names entries ++ drop (ename_max * length entries) node.name;
}

-- Whether `current` may follow `previous`; `none` is `EXFAT_ENTRY_NONE`, the end of the set.
unfoldable pub valid_after : Option ℕ → Option ℕ → Bool
valid_after none none = false
valid_after none (some current) = current == entry_file
valid_after (some previous) none =
    if previous == entry_file
    then false
    else if previous == entry_file_info
    then false
    else if previous == entry_file_name
    then true
    else leb entry_file_tail previous
valid_after (some previous) (some current) =
    if previous == entry_file
    then current == entry_file_info
    else if previous == entry_file_info
    then current == entry_file_name
    else if previous == entry_file_name
    then current == entry_file_name || leb entry_file_tail current
    else if leb entry_file_tail previous
    then leb entry_file_tail current
    else false

unfoldable pub check_types : Option ℕ → List (List ℕ) → Bool
unfolding valid_after
check_types previous [] = valid_after previous none
check_types previous (entry ∷ entries) =
    let current = some (get_or entry 0 0) in
    valid_after previous current && check_types current entries

abbrev pub check_entries : List (List ℕ) → Bool
check_entries entries = check_types none entries

abbrev pub is_sum : ℕ → List ℕ → Bool
is_sum actual_checksum meta1 = actual_checksum == field 2 meta1 2

-- The checks but that of the checksum.
unfoldable pub is_within : Volume → Node → Bool
is_within v node =
    not (ltb node.size node.valid_size)
    && not (node.size == 0 && not (node.start_cluster == cluster_free))
    && not (ltb 0 node.size && cluster_invalid v node.start_cluster)
    && not (ltb (v.cluster_count * cluster_size v) node.size)
    && not (node.size == 0 && node.is_contiguous)
    && not (not (bit_and node.attrib attrib_dir == 0) && not (node.size % cluster_size v == 0))

-- The result, and the node, which a repair marks dirty. A check that fails reports the name of the node,
-- and `none` is the `exfat_bug` of a name that cannot be shown.
unfoldable pub check_node : Volume → Node → ℕ → List ℕ → Option (Bool × Node)
unfolding is_within is_nameable
check_node v node actual_checksum meta1 =
    let repaired = if is_sum actual_checksum meta1 then false else v.ask_to_fix in
    if not (is_sum actual_checksum meta1 && is_within v node) && not (is_nameable node.name)
    then none
    else some (
      (is_sum actual_checksum meta1 || repaired) && is_within v node,
      record node { is_dirty = node.is_dirty || repaired },
    )

-- `refused` is `-EIO`, `stopped` is `exfat_bug`.
pub data Parse : Type 0 where
  stopped : Parse
  refused : Parse
  parsed : Node → Parse

abbrev pub after_check : Option (Bool × Node) → Parse
after_check none = stopped
after_check (some (true, node)) = parsed node
after_check (some (false, node)) = refused

unfoldable pub parse_file_entries : Volume → Node → List (List ℕ) → Parse
unfolding check_types check_node
parse_file_entries v node entries =
    let meta1 = get_or entries 0 [] in
    let meta2 = get_or entries 1 [] in
    let mandatory_entries = 2 + div_round_up (get_or meta2 3 0) ename_max in
    let filled =
      init_node_name (init_node_meta2 (init_node_meta1 v node meta1) meta2)
        (take (mandatory_entries - 2) (drop 2 entries)) in
    if not (check_entries entries)
    then refused
    else if ltb (get_or meta1 1 0) 2
    then refused
    else if not (bit_and (get_or meta2 1 0) 0xfffffffc == 0)
    then refused
    else if ltb (get_or meta1 1 0) (mandatory_entries - 1)
    then refused
    else after_check (check_node v filled (calc_checksum entries) meta1)

-- The two entries of a new file, before the checksum. `now` is the stamp of `time(NULL)`.
unfoldable pub new_meta1 : ℕ → Stamp → ℕ → List ℕ
new_meta1 attrib now name_entries =
    let e0 = put 1 (replicate 32 0) 0 entry_file in
    let e1 = put 1 e0 1 (1 + name_entries) in
    let e2 = put 2 e1 4 attrib in
    let e3 = put 1 (put 1 e2 20 now.centisec) 22 now.tzoffset in
    let e4 = put 2 (put 2 (put 2 e3 10 now.date) 14 now.date) 18 now.date in
    let e5 = put 2 (put 2 (put 2 e4 8 now.time) 12 now.time) 16 now.time in
    put 1 (put 1 (put 1 e5 21 now.centisec) 23 now.tzoffset) 24 now.tzoffset

unfoldable pub new_meta2 : ℕ → ℕ → List ℕ
new_meta2 name_length name_hash =
    let e0 = put 1 (replicate 32 0) 0 entry_file_info in
    let e1 = put 1 e0 1 flag_always1 in
    let e2 = put 1 e1 3 name_length in put 4 (put 2 e2 4 name_hash) 20 cluster_free

-- `n` entries for the units from the start of `name`.
unfoldable pub name_entries_of : ℕ → List ℕ → List (List ℕ)
unfolding unit_bytes
name_entries_of zero name = []
name_entries_of (suc n) name =
    (entry_file_name ∷ 0 ∷ unit_bytes (take ename_max name))
    ∷ name_entries_of n (drop ename_max name)

-- What `commit_entry` writes for a name, which stands in an array of `EXFAT_NAME_MAX + 1` units.
unfoldable pub new_entries : Volume → List ℕ → ℕ → Stamp → List (List ℕ)
unfolding new_meta1 new_meta2 name_entries_of utf16_length calc_checksum calc_name_hash
new_entries v name attrib now =
    let name_length = utf16_length name in
    let name_entries = div_round_up name_length ename_max in
    let meta1 = new_meta1 attrib now name_entries in
    let rest =
      new_meta2 name_length (calc_name_hash v.upcase (take name_length name) 0)
      ∷ name_entries_of name_entries name in
    put 2 meta1 2 (calc_checksum (meta1 ∷ rest)) ∷ rest

-- The node that `commit_entry` attaches.
unfoldable pub new_node : Volume → List ℕ → ℕ → ℕ → Stamp → Node
unfolding new_entries
new_node v name offset attrib now =
    let entries = new_entries v name attrib now in
    let blank = record allocate_node {
      entry_offset = offset;
      name = take (utf16_length name) name ++ drop (utf16_length name) allocate_node.name;
    } in
    init_node_meta2 (init_node_meta1 v blank (get_or entries 0 [])) (get_or entries 1 [])
