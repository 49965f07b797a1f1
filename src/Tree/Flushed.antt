-- ===== src/Tree/Flushed.antt =====
-- A node that is flushed is read back: exfat_flush_node and parse_file_entries of libexfat/node.c.
use exfat.Prelude.{
  ℕ, zero, suc, ◌+◌, ◌*◌, ◌/◌, ◌%◌, ◌^◌, ◌≤◌, ◌<◌, ◌≡◌, refl, sym, ap, subst, ◌∙◌, Bool, true,
  false, not, ◌&&◌, List, [], ◌∷◌, arith, ◌==◌, if◌then◌else◌, get_or, drop, length, bit_and,
  bit_or,
}
use exfat.Bitmap.{div_round_up}
use exfat.Timestamp.{Stamp, exfat2unix, unix2exfat}
use exfat.Checksum.{calc_checksum}
use exfat.Tree.Readdir.{empty_node}
use exfat.Dirent.{
  Parse, parsed, Volume, Node, allocate_node, field, ename_max, check_entries, check_types,
  parse_file_entries,
}
use exfat.Dirent.Check.{IsChecked, IsClean, filled, parse_file_entries-IsClean}
use exfat.Dirent.Create.{stored_sum}
use exfat.Tree.Entries.{flushed, flushed_meta1, flushed_meta2}

-- The bytes of an entry, one by one.
abbrev bytes : ℕ → List ℕ → List ℕ
bytes zero entry = []
bytes (suc n) entry = get_or entry 0 0 ∷ bytes n (drop 1 entry)

bytes_lem : (n : ℕ) (entry : List ℕ) → length entry ≡ n → bytes n entry ≡ entry
bytes_lem zero [] h = refl
bytes_lem zero (b ∷ entry) h = ground arith
bytes_lem (suc n) [] h = ground arith
bytes_lem (suc n) (b ∷ entry) h = ap (λ l. b ∷ l) (bytes_lem n entry (omega arith))

-- What a field of `n` bytes keeps of a value.
abbrev kept : ℕ → ℕ → ℕ
kept zero v = 0
kept (suc n) v = v % 2 ^ 8 + 2 ^ 8 * kept n (v / 2 ^ 8)

abbrev room : ℕ → ℕ
room zero = 1
room (suc n) = 2 ^ 8 * room n

kept_lem : (n v : ℕ) → v < room n → kept n v ≡ v
kept_lem zero v h = omega arith
kept_lem (suc n) v h = let rest = kept_lem n (v / 2 ^ 8) (omega (arith, h)) in omega (arith, rest)

kept_two : (v : ℕ) → kept 2 v ≡ v % 2 ^ 16
kept_two v = omega arith

-- A stamp in the fields of an entry.
abbrev pub in_fields : Stamp → Stamp
in_fields s = record {
  date = s.date % 2 ^ 16;
  time = s.time % 2 ^ 16;
  centisec = s.centisec % 2 ^ 8;
  tzoffset = s.tzoffset % 2 ^ 8;
}

-- Empty files are not contiguous on the device.
abbrev pub marked : Node → Bool
marked node = not (node.size == 0) && node.is_contiguous

-- A node as it is read from the entries to which another was flushed: the name and the number of entries
-- are those of the entries.
abbrev pub reread : Volume → Node → Node → Node
reread v node stored =
    let mtime = in_fields (unix2exfat v.timezone node.mtime) in
    let atime = in_fields (unix2exfat v.timezone node.atime) in
    record stored {
      attrib = node.attrib;
      mtime = exfat2unix v.time_bits v.timezone mtime;
      atime = exfat2unix v.time_bits v.timezone (record atime { centisec = 0 });
      valid_size = node.valid_size;
      size = node.size;
      start_cluster = node.start_cluster;
      fptr_cluster = node.start_cluster;
      is_contiguous = marked node;
    }

-- The fields of a node fit those of an entry.
pub record IsStorable (node : Node) : Type 0 where
  pub attrib : node.attrib < 2 ^ 16
  pub valid_size : node.valid_size < 2 ^ 64
  pub size : node.size < 2 ^ 64
  pub start_cluster : node.start_cluster < 2 ^ 32

flags_lem : (b : Bool) → not (bit_and ((if b then bit_or 1 2 else 1) % 2 ^ 8) 2 == 0) ≡ b
flags_lem true = refl
flags_lem false = refl

flags_clean : (b : Bool) → bit_and ((if b then bit_or 1 2 else 1) % 2 ^ 8) 0xfffffffc ≡ 0
flags_clean true = refl
flags_clean false = refl

module _ (v : Volume) (offset : ℕ) (node : Node) (m1 m2 : List ℕ) (tail : List (List ℕ))
    (fits : IsStorable node) where
  abbrev blank : Node
  blank = empty_node allocate_node offset

  abbrev meta1 : List ℕ
  meta1 = bytes 32 m1

  abbrev meta2 : List ℕ
  meta2 = bytes 32 m2

  abbrev entries : List (List ℕ)
  entries = meta1 ∷ meta2 ∷ tail

  filled-flushed : filled v blank (flushed v node entries) ≡ reread v node (filled v blank entries)
  unfolding flushed flushed_meta1 flushed_meta2
  filled-flushed =
      let m = unix2exfat v.timezone node.mtime in
      let a = unix2exfat v.timezone node.atime in
      let attrib = kept_lem 2 node.attrib (omega (arith, fits.attrib)) in
      let valid_size = kept_lem 8 node.valid_size (omega (arith, fits.valid_size)) in
      let size = kept_lem 8 node.size (omega (arith, fits.size)) in
      let start_cluster = kept_lem 4 node.start_cluster (omega (arith, fits.start_cluster)) in
      let contiguous = flags_lem (marked node) in
      λ i. record (filled v blank entries) {
        attrib = attrib i;
        mtime = exfat2unix v.time_bits v.timezone (record {
          date = kept_two m.date i;
          time = kept_two m.time i;
          centisec = m.centisec % 2 ^ 8;
          tzoffset = m.tzoffset % 2 ^ 8;
        });
        atime = exfat2unix v.time_bits v.timezone (record {
          date = kept_two a.date i;
          time = kept_two a.time i;
          centisec = 0;
          tzoffset = a.tzoffset % 2 ^ 8;
        });
        valid_size = valid_size i;
        size = size i;
        start_cluster = start_cluster i;
        fptr_cluster = start_cluster i;
        is_contiguous = contiguous i;
      }

  flushed_types : check_entries (flushed v node entries) ≡ check_entries entries
  unfolding flushed flushed_meta1 flushed_meta2 check_types
  flushed_types = refl

  flushed_sum :
      calc_checksum (flushed v node entries) ≡ field 2 (get_or (flushed v node entries) 0 []) 2
  unfolding flushed flushed_meta1
  flushed_sum =
      stored_sum (flushed_meta1 v node meta1) (flushed_meta2 node meta2 ∷ tail) (omega arith)

  flushed-IsClean :
      check_entries entries ≡ true
      → 2 ≤ get_or meta1 1 0
      → div_round_up (get_or meta2 3 0) ename_max + 1 ≤ get_or meta1 1 0
      → IsChecked v (reread v node (filled v blank entries))
      → IsClean v blank (flushed v node entries)
  unfolding flushed flushed_meta1 flushed_meta2
  flushed-IsClean types enough names checked = (
    flushed_types ∙ types,
    enough,
    flags_clean (marked node),
    names,
    flushed_sum,
    subst (IsChecked v) (sym filled-flushed) checked,
  )

  parse_flushed :
      check_entries entries ≡ true
      → 2 ≤ get_or meta1 1 0
      → div_round_up (get_or meta2 3 0) ename_max + 1 ≤ get_or meta1 1 0
      → IsChecked v (reread v node (filled v blank entries))
      → parse_file_entries v blank (flushed v node entries)
        ≡ parsed (reread v node (filled v blank entries))
  parse_flushed types enough names checked =
      parse_file_entries-IsClean v blank (flushed v node entries)
        (flushed-IsClean types enough names checked)
      ∙ ap clean filled-flushed
    where
      clean : Node → Parse
      clean n = parsed (record n { is_dirty = false })

-- Over a set of entries with the grammar of a file's, whose first two have 32 bytes and which
-- counts entries enough for its name, a node whose fields fit and that satisfies the rules of the
-- volume (an empty one without the flag of a contiguous file) is flushed into a set that
-- parse_file_entries reads back: attributes, sizes, start and times are those of the node, the
-- times as their fields keep them, and the name and the number of entries those of the set.
pub parse_file_entries-flushed :
    (v : Volume) (offset : ℕ) (node : Node) (meta1 meta2 : List ℕ) (tail : List (List ℕ))
    → IsStorable node
    → IsChecked v (record node { is_contiguous = marked node })
    → length meta1 ≡ 32
    → length meta2 ≡ 32
    → check_entries (meta1 ∷ meta2 ∷ tail) ≡ true
    → 2 ≤ get_or meta1 1 0
    → div_round_up (get_or meta2 3 0) ename_max + 1 ≤ get_or meta1 1 0
    → parse_file_entries v (empty_node allocate_node offset) (flushed v node (meta1 ∷ meta2 ∷ tail))
      ≡ parsed (reread v node (filled v (empty_node allocate_node offset) (meta1 ∷ meta2 ∷ tail)))
parse_file_entries-flushed v offset node meta1 meta2 tail fits checked size1 size2 types enough
      names =
    let blank = empty_node allocate_node offset in
    let m1 = sym (bytes_lem 32 meta1 size1) in
    let m2 = sym (bytes_lem 32 meta2 size2) in
    let read = λ (a : List ℕ) (b : List ℕ).
      parse_file_entries v blank (flushed v node (a ∷ b ∷ tail))
      ≡ parsed (reread v node (filled v blank (a ∷ b ∷ tail))) in
    subst (λ a. read a meta2) (sym m1)
      (subst (read (bytes 32 meta1)) (sym m2) (
        parse_flushed v offset node meta1 meta2 tail fits
          (subst (λ b. check_entries (bytes 32 meta1 ∷ b ∷ tail) ≡ true) m2
            (subst (λ a. check_entries (a ∷ meta2 ∷ tail) ≡ true) m1 types))
          (subst (λ a. 2 ≤ get_or a 1 0) m1 enough)
          (subst (λ b. div_round_up (get_or b 3 0) ename_max + 1 ≤ get_or (bytes 32 meta1) 1 0) m2
            (subst (λ a. div_round_up (get_or meta2 3 0) ename_max + 1 ≤ get_or a 1 0) m1 names))
          (record {
            valid_data = checked.valid_data;
            empty = checked.empty;
            start = checked.start;
            fits = checked.fits;
            whole = checked.whole;
          })))
