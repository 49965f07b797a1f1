-- ===== src/Dirent/Create.antt =====
-- A new file: what `commit_entry` writes is what `parse_file_entries` reads.
use exfat.Prelude.{
  ℕ, zero, suc, ◌+◌, ◌-◌, ◌*◌, ◌/◌, ◌%◌, ◌^◌, ◌≤◌, ◌≡◌, refl, sym, ap, ◌∙◌, List, [], ◌∷◌, ◌++◌,
  get_or, set, take, drop, length, arith, replicate, some, true, take-append-drop, length-set,
  get_or-set_self, get_or-set_ne,
}
use native.Mathlib.Nat.{zero-mod}
use exfat.Bitmap.{div_round_up}
use exfat.Timestamp.{Stamp}
use exfat.Utf.{utf16_length}
use exfat.Checksum.{calc_checksum, calc_name_hash}
use exfat.Checksum.Entries.{calc_checksum-field, calc_checksum-lt}
use exfat.Dirent.{
  Volume, Node, cluster_size, field, put, entry_names, name_entries_of, new_entries, new_meta1,
  new_meta2, new_node, parse_file_entries, parsed, check_entries, check_types, valid_after,
  allocate_node, entry_file_info, entry_file_name,
}
use exfat.Dirent.Bytes.{AllUnits, entry_names-name_entries_of, length-name_entries_of, drop_later}
use exfat.Dirent.Check.{IsClean, filled, parse_file_entries-IsClean}

-- The array `le16_t name[EXFAT_NAME_MAX + 1]` with a name, and zeros behind it.
pub record IsName (name : List ℕ) : Type 0 where
  pub size : length name ≡ 256
  pub all_units : AllUnits name
  pub some_unit : 1 ≤ utf16_length name
  pub fits : utf16_length name ≤ 255
  pub zeros : drop (utf16_length name) name ≡ drop (utf16_length name) (replicate 256 0)

-- The sum that is put into the field is the sum of what is then stored.
pub stored_sum :
    (meta1 : List ℕ) (rest : List (List ℕ))
    → 4 ≤ length meta1
    → calc_checksum (put 2 meta1 2 (calc_checksum (meta1 ∷ rest)) ∷ rest)
      ≡ field 2 (put 2 meta1 2 (calc_checksum (meta1 ∷ rest))) 2
stored_sum meta1 rest le =
    let sum = calc_checksum (meta1 ∷ rest) in
    let low = sum % 2 ^ 8 in
    let high = sum / 2 ^ 8 % 2 ^ 8 in
    let high_at : get_or (set (set meta1 2 low) 3 high) 3 0 ≡ high =
      get_or-set_self (set meta1 2 low) 3 high 0 (omega (arith, length-set meta1 2 low)) in
    let low_at : get_or (set (set meta1 2 low) 3 high) 2 0 ≡ low =
      get_or-set_ne (set meta1 2 low) 3 2 high 0 (omega arith)
      ∙ get_or-set_self meta1 2 low 0 (omega arith) in
    omega (
      arith,
      calc_checksum-field meta1 rest low high,
      calc_checksum-lt (meta1 ∷ rest),
      high_at,
      low_at,
    )

names_pass :
    (n : ℕ) (name : List ℕ) → check_types (some entry_file_name) (name_entries_of n name) ≡ true
unfolding check_types valid_after name_entries_of
names_pass zero name = refl
names_pass (suc n) name = names_pass n (drop 15 name)

-- The name is whole when at least its units are taken.
take_name :
    (name : List ℕ) (n : ℕ)
    → IsName name
    → utf16_length name ≤ n
    → take n name ++ drop n (replicate 256 0) ≡ name
take_name name n ok le =
    ap (λ l. take n name ++ l)
      (sym (drop_later (utf16_length name) n name (replicate 256 0) le ok.zeros))
    ∙ take-append-drop n name

module _ (v : Volume) (name : List ℕ) (offset attrib : ℕ) (now : Stamp) (ok : IsName name) where
  read_name :
      (n : ℕ)
      → 15 * n ≤ 256
      → utf16_length name ≤ 15 * n
      → entry_names (take n (name_entries_of n name))
          ++ drop (15 * length (take n (name_entries_of n name))) (replicate 256 0)
        ≡ name
  read_name n le enough =
      let all : take n (name_entries_of n name) ≡ name_entries_of n name =
        take_all n (name_entries_of n name) (length-name_entries_of n name) in
      rw
        (
          all,
          length-name_entries_of n name,
          entry_names-name_entries_of n name ok.all_units (omega (arith, ok.size)),
        )
        (take_name name (15 * n) ok enough)
    where
      take_all : {A : Type 0} (n : ℕ) (xs : List A) → length xs ≡ n → take n xs ≡ xs
      take_all zero [] e = refl
      take_all zero (x ∷ xs) e = ground arith
      take_all (suc n) [] e = refl
      take_all (suc n) (x ∷ xs) e = ap (λ l. x ∷ l) (take_all n xs (omega arith))

  abbrev blank : Node
  blank = record allocate_node { entry_offset = offset }

  abbrev count : ℕ
  count = div_round_up (utf16_length name) 15

  enough : (utf16_length name ≤ 15 * count) × (15 * count ≤ 256) × (1 ≤ count) × (count ≤ 17)
  enough = (
    omega (arith, ok.some_unit),
    omega (arith, ok.fits),
    omega (arith, ok.some_unit),
    omega (arith, ok.fits),
  )

  new_name : take (utf16_length name) name ++ drop (utf16_length name) (replicate 256 0) ≡ name
  new_name = take_name name (utf16_length name) ok (omega arith)

  name_length : utf16_length name % 2 ^ 8 ≡ utf16_length name
  name_length = omega (arith, ok.fits)

  filled_name : (filled v blank (new_entries v name attrib now)).name ≡ name
  unfolding new_entries new_meta2
  filled_name =
      let sized : 2 + div_round_up (utf16_length name % 2 ^ 8) 15 - 2 ≡ count =
        omega (arith, name_length) in
      ap
        (λ n.
          entry_names (take n (name_entries_of count name))
          ++ drop (15 * length (take n (name_entries_of count name))) (replicate 256 0))
        sized
      ∙ read_name count (enough.1) (enough.0)

  new_types : check_entries (new_entries v name attrib now) ≡ true
  unfolding new_entries new_meta1 new_meta2 check_types valid_after name_entries_of
  new_types = types count (omega (arith, enough.2))
    where
      types : (n : ℕ) → 1 ≤ n → check_types (some entry_file_info) (name_entries_of n name) ≡ true
      types zero le = ground arith
      types (suc n) le = names_pass n (drop 15 name)

  new_entries-IsClean : IsClean v blank (new_entries v name attrib now)
  unfolding new_entries new_meta1 new_meta2
  new_entries-IsClean = (
    new_types,
    omega (arith, enough),
    refl,
    omega (arith, enough, name_length),
    stored_sum (new_meta1 attrib now count)
        (new_meta2 (utf16_length name) (calc_name_hash v.upcase (take (utf16_length name) name) 0)
          ∷ name_entries_of count name)
        (omega arith),
    record {
      valid_data = omega arith;
      empty = λ z. (refl, refl);
      start = λ p. ground arith;
      fits = omega arith;
      whole = λ d. zero-mod (cluster_size v);
    },
  )

  -- For a name of 1 to 255 units with zeros behind it in its array, the entries that commit_entry
  -- writes are read back by parse_file_entries as the very node that commit_entry attaches.
  pub parse_file_entries-new_entries :
      parse_file_entries v
        (record allocate_node { entry_offset = offset })
        (new_entries v name attrib now)
      ≡ parsed (new_node v name offset attrib now)
  unfolding new_node
  parse_file_entries-new_entries =
      parse_file_entries-IsClean v blank (new_entries v name attrib now) new_entries-IsClean
      ∙ ap (λ l. parsed (record (new_node v name offset attrib now) { name = l }))
          (filled_name ∙ sym new_name)
