-- ===== src/Dirent/Examples.antt =====
-- A file named "A." and its entries.
use exfat.Prelude.{ℕ, zero, suc, ◌≡◌, ◌↔◌, refl, true, false, List, [], ◌∷◌, replicate, arith}
use exfat.Prelude.Int.{pos}
use exfat.Checksum.{calc_checksum}
use exfat.Timestamp.{Stamp}
use exfat.Utf.{utf16_length}
use exfat.Dirent.{
  Volume, allocate_node, check_entries, stopped, parsed, parse_file_entries, new_entries, new_node,
  entry_names,
}
use exfat.Dirent.Bytes.{AllUnits, no_units, unit_and}
use exfat.Dirent.Grammar.{IsEntrySet, check_entries-IsEntrySet}
use exfat.Dirent.Check.{IsParsed, parse_file_entries-IsParsed}
use exfat.Dirent.Create.{IsName, parse_file_entries-new_entries}

abbrev volume : Volume
volume = record {
  cluster_count = 100;
  sector_bits = 9;
  spc_bits = 3;
  time_bits = 31;
  timezone = pos 0;
  upcase = [];
  ask_to_fix = false;
}

abbrev stamp : Stamp
stamp = record { date = 0x5d51; time = 0x6000; centisec = 100; tzoffset = 0x80 }

abbrev name : List ℕ
name = 0x41 ∷ 0x2e ∷ replicate 254 0

replicate-AllUnits : (n : ℕ) → AllUnits (replicate n 0)
replicate-AllUnits zero = no_units
replicate-AllUnits (suc n) = unit_and (omega arith) (replicate-AllUnits n)

name-IsName : IsName name
unfolding utf16_length
name-IsName = record {
  size = refl;
  all_units = unit_and (omega arith) (unit_and (omega arith) (replicate-AllUnits 254));
  some_unit = omega arith;
  fits = omega arith;
  zeros = refl;
}

parse_file_entries-new_entries_example :
    parse_file_entries volume
      (record allocate_node { entry_offset = 96 })
      (new_entries volume name 0x20 stamp)
    ≡ parsed (new_node volume name 96 0x20 stamp)
parse_file_entries-new_entries_example =
    parse_file_entries-new_entries volume name 96 0x20 stamp name-IsName

parse_file_entries-IsParsed_example :
    IsParsed volume (new_entries volume name 0x20 stamp) (new_node volume name 96 0x20 stamp)
parse_file_entries-IsParsed_example =
    parse_file_entries-IsParsed volume (record allocate_node { entry_offset = 96 })
      (new_node volume name 96 0x20 stamp) (new_entries volume name 0x20 stamp)
      (parse_file_entries-new_entries volume name 96 0x20 stamp name-IsName)

-- A name that cannot be shown, in a set whose checksum is wrong, stops the program.
abbrev lone_set : List (List ℕ)
lone_set =
    (0x85 ∷ 2 ∷ replicate 30 0)
    ∷ (0xc0 ∷ 1 ∷ 0 ∷ 1 ∷ replicate 28 0)
    ∷ (0xc1 ∷ 0 ∷ 0 ∷ 0xd8 ∷ replicate 28 0)
    ∷ []

lone_stops : parse_file_entries volume allocate_node lone_set ≡ stopped
unfolding parse_file_entries calc_checksum entry_names
lone_stops = refl

abbrev set_of_four : List (List ℕ)
set_of_four = (0x85 ∷ []) ∷ (0xc0 ∷ []) ∷ (0xc1 ∷ []) ∷ (0xe0 ∷ []) ∷ []

check_entries-IsEntrySet_example : (check_entries set_of_four ≡ true) ↔ IsEntrySet set_of_four
check_entries-IsEntrySet_example = check_entries-IsEntrySet set_of_four
