-- ===== src/Lookup/Examples.antt =====
-- "aB" and "Ab" under the upper case of ASCII, and the paths of a small tree.
use exfat.Prelude.{
  true, ℕ, sym, subst, ◌+◌, ◌-◌, ◌≡◌, ◌↔◌, refl, ◌&&◌, [], ◌∷◌, leb, if◌then◌else◌, arith, false,
}
use exfat.Prelude.Int.{pos, ◌-ℤ◌}
use exfat.Lookup.{compare_name, is_allowed}
use exfat.Lookup.Compare.{upper, IsTable, compare_name-upper}
use exfat.Prelude.{List, some}
use exfat.Prelude.Effect.{bug}
use exfat.Bitmap.{Endian}
use exfat.Utf.{Converted, utf8_to_utf16}
use exfat.Dirent.{name_max}
use exfat.Io.Examples.{byte_device}
use exfat.Tree.{write}
use exfat.Tree.Examples.{nodes_heap, volume, root_inode, b_inode}
use exfat.Lookup.Walk.{lookup, split}
use exfat.Lookup.Components.{components}
use exfat.Lookup.Found.{ended, entry, IsDirectory, first_match, found_in}
use exfat.Lookup.Resolved.{Resolves, arrived, enters, lookup-Resolves}

abbrev ascii : ℕ → ℕ
ascii c = if leb 0x61 c && leb c 0x7a then c - 0x20 else c

ascii-IsTable : IsTable ascii
ascii-IsTable c = (λ e. ground arith, λ e. ground arith)

compare_name-upper_example :
    (compare_name ascii (0x61 ∷ 0x42 ∷ 0 ∷ []) (0x41 ∷ 0x62 ∷ []) ≡ pos 0)
    ↔ (upper ascii (0x61 ∷ 0x42 ∷ 0 ∷ []) ≡ upper ascii (0x41 ∷ 0x62 ∷ []))
compare_name-upper_example =
    compare_name-upper ascii (0x61 ∷ 0x42 ∷ 0 ∷ []) (0x41 ∷ 0x62 ∷ []) ascii-IsTable

refuses_colon : is_allowed (0x61 ∷ 0x3a ∷ []) ≡ false
unfolding is_allowed
refuses_colon = refl

-- "/b/./c".
abbrev path : List ℕ
path = 0x2f ∷ 0x62 ∷ 0x2f ∷ 0x2e ∷ 0x2f ∷ 0x63 ∷ []

clean : {A : Type 0} → false ≡ true → A
clean e = ground (arith, e)

root-IsDirectory : IsDirectory nodes_heap 1 ((2, 0x61 ∷ 0 ∷ []) ∷ (3, 0x62 ∷ 0 ∷ []) ∷ [])
root-IsDirectory = record {
  inode = root_inode;
  real = omega arith;
  holds = refl;
  cached = refl;
  quiet = clean;
  nodes = entry (omega arith) refl clean (entry (omega arith) refl clean ended);
}

b-IsDirectory : IsDirectory nodes_heap 3 ((4, 0x63 ∷ 0 ∷ []) ∷ [])
b-IsDirectory = record {
  inode = b_inode;
  real = omega arith;
  holds = refl;
  cached = refl;
  quiet = clean;
  nodes = entry (omega arith) refl clean ended;
}

path_parts : components path ≡ (0x62 ∷ []) ∷ (0x63 ∷ []) ∷ []
unfolding components
path_parts = refl

b_converted : utf8_to_utf16 (0x62 ∷ []) (name_max + 1) ≡ Converted.done (0x62 ∷ 0 ∷ [])
unfolding utf8_to_utf16
b_converted = refl

c_converted : utf8_to_utf16 (0x63 ∷ []) (name_max + 1) ≡ Converted.done (0x63 ∷ 0 ∷ [])
unfolding utf8_to_utf16
c_converted = refl

b_found : first_match [] (0x62 ∷ 0 ∷ []) ((2, 0x61 ∷ 0 ∷ []) ∷ (3, 0x62 ∷ 0 ∷ []) ∷ []) ≡ some 3
unfolding first_match compare_name ◌-ℤ◌
b_found = refl

c_found : first_match [] (0x63 ∷ 0 ∷ []) ((4, 0x63 ∷ 0 ∷ []) ∷ []) ≡ some 4
unfolding first_match compare_name ◌-ℤ◌
c_found = refl

path-Resolves : Resolves nodes_heap [] 9 1 (components path) (some 4)
path-Resolves =
    subst (λ cs. Resolves nodes_heap [] 9 1 cs (some 4)) (sym path_parts)
      (enters root-IsDirectory (omega arith) b_converted b_found
        (enters b-IsDirectory (omega arith) c_converted c_found arrived))

lookup-Resolves_example :
    lookup byte_device Endian.little (pos 9) 9 path volume ≡ found_in byte_device volume (some 4)
lookup-Resolves_example =
    lookup-Resolves byte_device Endian.little (pos 9) 9 volume path root_inode (some 4)
      (omega arith) refl path-Resolves

-- A path whose last component is a dot stops the program, as does one that goes on behind a file.
split_dot : split byte_device Endian.little (pos 9) 9 (0x2e ∷ []) volume ≡ bug
unfolding split
split_dot = refl

lookup_file : lookup byte_device Endian.little (pos 9) 9 (0x61 ∷ 0x2f ∷ 0x62 ∷ []) volume ≡ bug
unfolding lookup compare_name ◌-ℤ◌ write
lookup_file = refl
