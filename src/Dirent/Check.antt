-- ===== src/Dirent/Check.antt =====
-- What the checks of a node establish, and what a parsed set of entries guarantees.
use exfat.Prelude.{
  ℕ, ◌+◌, ◌-◌, ◌*◌, ◌%◌, ◌≤◌, ◌<◌, bit_and, ◌≡◌, ◌≢◌, ◌↔◌, refl, sym, subst, ap, Bool, true, false,
  not, ◌&&◌, ◌||◌, none, some, List, [], ◌==◌, if◌then◌else◌, get_or, arith, Bool-cases, ◌⊎◌, ltb,
  take, drop,
}
use exfat.Bitmap.{div_round_up, cluster_free}
use exfat.Checksum.{calc_checksum}
use exfat.Dirent.{
  Volume, Node, cluster_size, cluster_invalid, field, check_entries, check_node, parse_file_entries,
  is_sum, is_within, is_nameable, Parse, refused, parsed, after_check, attrib_dir, init_node_meta1,
  init_node_meta2, init_node_name, ename_max,
}
use exfat.Dirent.Grammar.{IsEntrySet, check_entries-IsEntrySet}

pub record IsChecked (v : Volume) (node : Node) : Type 0 where
  pub valid_data : node.valid_size ≤ node.size
  pub empty : node.size ≡ 0 → (node.start_cluster ≡ 0) × (node.is_contiguous ≡ false)
  pub start : 0 < node.size → (2 ≤ node.start_cluster) × (node.start_cluster < v.cluster_count + 2)
  pub fits : node.size ≤ v.cluster_count * cluster_size v
  pub whole : bit_and node.attrib attrib_dir ≢ 0 → node.size % cluster_size v ≡ 0

all_true :
    {b c d e f g : Bool}
    → b ≡ true
    → c ≡ true
    → d ≡ true
    → e ≡ true
    → f ≡ true
    → g ≡ true
    → b && c && d && e && f && g ≡ true
all_true hb hc hd he hf hg = ground arith

within-IsChecked : (v : Volume) (node : Node) → (is_within v node ≡ true) ↔ IsChecked v node
unfolding is_within
within-IsChecked v node = (
  (λ e. record {
    valid_data = ground arith;
    empty = λ z. (ground arith, ground arith);
    start = λ p. (ground arith, ground arith);
    fits = ground arith;
    whole = λ d. ground arith;
  }),
  λ c.
      let valid : not (ltb node.size node.valid_size) ≡ true = ground (arith, c.valid_data) in
      let no_start : not (node.size == 0 && not (node.start_cluster == cluster_free)) ≡ true =
        ground (arith, c.empty) in
      let start : not (ltb 0 node.size && cluster_invalid v node.start_cluster) ≡ true =
        ground (arith, c.start) in
      let heap : not (ltb (v.cluster_count * cluster_size v) node.size) ≡ true =
        ground (arith, c.fits) in
      let chain : not (node.size == 0 && node.is_contiguous) ≡ true = ground (arith, c.empty) in
      let dir : not
            (not (bit_and node.attrib attrib_dir == 0) && not (node.size % cluster_size v == 0))
          ≡ true =
        ground (arith, c.whole) in
      all_true valid no_start start heap chain dir,
)

-- An accepted node is within the volume, and its checksum is right or the user asked for a repair.
record IsAccepted (v : Volume) (node : Node) (actual : ℕ) (meta1 : List ℕ) (y : Node) : Type 0 where
  sums : (actual ≡ field 2 meta1 2) ⊎ (v.ask_to_fix ≡ true)
  within : IsChecked v node
  same :
      record node {
        is_dirty = node.is_dirty || (if is_sum actual meta1 then false else v.ask_to_fix);
      }
      ≡ y

check_node-IsAccepted :
    (v : Volume) (node y : Node) (actual : ℕ) (meta1 : List ℕ)
    → after_check (check_node v node actual meta1) ≡ parsed y
    → IsAccepted v node actual meta1 y
unfolding check_node
check_node-IsAccepted v node y actual meta1 e =
    go (not (is_sum actual meta1 && is_within v node) && not (is_nameable node.name))
      ((is_sum actual meta1 || (if is_sum actual meta1 then false else v.ask_to_fix))
        && is_within v node)
      refl e
  where
    x : Node
    x = record node {
      is_dirty = node.is_dirty || (if is_sum actual meta1 then false else v.ask_to_fix);
    }

    node_of : Parse → Node
    node_of (parsed n) = n
    node_of _ = x

    go :
        (stops passed : Bool)
        → (is_sum actual meta1 || (if is_sum actual meta1 then false else v.ask_to_fix))
            && is_within v node
          ≡ passed
        → after_check (if stops then none else some (passed, x)) ≡ parsed y
        → IsAccepted v node actual meta1 y
    go true passed h e = ground (arith, e)
    go false false h e = ground (arith, e)
    go false true h e = record {
      sums = ground (arith, h);
      within = (within-IsChecked v node).0 (ground (arith, h));
      same = ap node_of e;
    }

-- The node that the fields of a set of entries give.
pub record IsParsed (v : Volume) (entries : List (List ℕ)) (node : Node) : Type 0 where
  pub set : IsEntrySet entries
  pub checked : IsChecked v node
  pub sum :
      (calc_checksum entries ≡ field 2 (get_or entries 0 []) 2)
      ⊎ (v.ask_to_fix ≡ true) × (node.is_dirty ≡ true)
  pub enough : 2 ≤ node.continuations
  pub names : div_round_up (get_or (get_or entries 1 []) 3 0) ename_max + 1 ≤ node.continuations
  pub attrib : node.attrib ≡ field 2 (get_or entries 0 []) 4
  pub size : node.size ≡ field 8 (get_or entries 1 []) 24
  pub start_cluster : node.start_cluster ≡ field 4 (get_or entries 1 []) 20

not_ltb-le : (a b : ℕ) → ltb a b ≡ false → b ≤ a
not_ltb-le a b h = ground (arith, h)

guards :
    (a b c d : Bool) (rest : Parse) (y : Node)
    → (if a
        then refused
        else if b
        then refused
        else if c
        then refused
        else if d
        then refused
        else rest)
      ≡ parsed y
    → (a ≡ false) × (b ≡ false) × (c ≡ false) × (d ≡ false) × (rest ≡ parsed y)
guards a b c d rest y e = (ground arith, ground arith, ground arith, ground arith, ground arith)

repair_dirty :
    (a b : ℕ) (ask was : Bool)
    → (a ≡ b) ⊎ (ask ≡ true)
    → (a ≡ b) ⊎ (ask ≡ true) × (was || (if a == b then false else ask) ≡ true)
repair_dirty a b ask was h = ground (arith, Bool-cases (a == b))

-- When `parse_file_entries` accepts a set of entries, the set has the grammar of a file's, its
-- checksum is right or a repair has marked the node dirty, there are entries enough for the
-- name, the node has the attributes, the size and the start that are stored, and it is within the volume.
pub parse_file_entries-IsParsed :
    (v : Volume) (blank node : Node) (entries : List (List ℕ))
    → parse_file_entries v blank entries ≡ parsed node
    → IsParsed v entries node
unfolding parse_file_entries
parse_file_entries-IsParsed v blank node entries e =
    let meta1 = get_or entries 0 [] in
    let meta2 = get_or entries 1 [] in
    let mandatory_entries = 2 + div_round_up (get_or meta2 3 0) ename_max in
    let filled =
      init_node_name (init_node_meta2 (init_node_meta1 v blank meta1) meta2)
        (take (mandatory_entries - 2) (drop 2 entries)) in
    let (set, few, flags, names, valid) =
      guards (not (check_entries entries)) (ltb (get_or meta1 1 0) 2)
        (not (bit_and (get_or meta2 1 0) 0xfffffffc == 0))
        (ltb (get_or meta1 1 0) (mandatory_entries - 1))
        (after_check (check_node v filled (calc_checksum entries) meta1)) node e in
    let facts = check_node-IsAccepted v filled node (calc_checksum entries) meta1 valid in
    let same = facts.same in
    let count : node.continuations ≡ get_or meta1 1 0 = ap (λ n. n.continuations) (sym same) in
    let few' = not_ltb-le (get_or meta1 1 0) 2 few in
    let names' = not_ltb-le (get_or meta1 1 0) (mandatory_entries - 1) names in
    record {
      set = (check_entries-IsEntrySet entries).0 (ground (arith, set));
      checked = subst (IsChecked v) same (record {
        valid_data = facts.within.valid_data;
        empty = facts.within.empty;
        start = facts.within.start;
        fits = facts.within.fits;
        whole = facts.within.whole;
      });
      sum =
          subst
            (λ n.
              (calc_checksum entries ≡ field 2 meta1 2)
              ⊎ (v.ask_to_fix ≡ true) × (n.is_dirty ≡ true))
            same
            (repair_dirty (calc_checksum entries) (field 2 meta1 2) v.ask_to_fix blank.is_dirty
              facts.sums);
      enough = omega (arith, few', count);
      names = omega (arith, names', count);
      attrib = ap (λ n. n.attrib) (sym same);
      size = ap (λ n. n.size) (sym same);
      start_cluster = ap (λ n. n.start_cluster) (sym same);
    }

-- The node as its entries fill it, before the checks.
abbrev pub filled : Volume → Node → List (List ℕ) → Node
filled v blank entries =
    init_node_name
      (init_node_meta2 (init_node_meta1 v blank (get_or entries 0 [])) (get_or entries 1 []))
      (take (2 + div_round_up (get_or (get_or entries 1 []) 3 0) ename_max - 2) (drop 2 entries))

abbrev pub IsClean : Volume → Node → List (List ℕ) → Type 0
IsClean v blank entries =
    (check_entries entries ≡ true)
    × (2 ≤ get_or (get_or entries 0 []) 1 0)
    × (bit_and (get_or (get_or entries 1 []) 1 0) 0xfffffffc ≡ 0)
    × (div_round_up (get_or (get_or entries 1 []) 3 0) ename_max + 1
        ≤ get_or (get_or entries 0 []) 1 0)
    × (calc_checksum entries ≡ field 2 (get_or entries 0 []) 2)
    × IsChecked v (filled v blank entries)

pub parse_file_entries-IsClean :
    (v : Volume) (blank : Node) (entries : List (List ℕ))
    → IsClean v blank entries
    → parse_file_entries v blank entries
      ≡ parsed (record (filled v blank entries) { is_dirty = blank.is_dirty || false })
unfolding parse_file_entries
parse_file_entries-IsClean v blank entries (set, few, flags, names, sum, checked) =
    let meta1 = get_or entries 0 [] in
    let meta2 = get_or entries 1 [] in
    let mandatory_entries = 2 + div_round_up (get_or meta2 3 0) ename_max in
    let blank_node = filled v blank entries in
    let within : is_within v blank_node ≡ true = (within-IsChecked v blank_node).1 checked in
    let sum' : calc_checksum entries == field 2 meta1 2 ≡ true = ground arith in
    let accepted : after_check (check_node v blank_node (calc_checksum entries) meta1)
        ≡ parsed (record blank_node { is_dirty = blank.is_dirty || false }) =
      unfold check_node in rw (sum', within) refl in
    let few' : ltb (get_or meta1 1 0) 2 ≡ false = ground arith in
    let flags' : not (bit_and (get_or meta2 1 0) 0xfffffffc == 0) ≡ false = ground (arith, flags) in
    let names' : ltb (get_or meta1 1 0) (mandatory_entries - 1) ≡ false = ground arith in
    rw (set, few', flags', names') accepted
