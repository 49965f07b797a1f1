-- ===== src/Checksum.antt =====
-- The checksums of libexfat/utils.c: entry sets, the boot region, and the name hash. Memory is a
-- list of bytes; an entry is 32 of them.
pub mod Detect
pub mod Entries
pub mod Boot
mod Examples
use exfat.Prelude.{
  ℕ, zero, suc, ◌+◌, ◌*◌, ◌/◌, ◌%◌, ◌^◌, bit_and, bit_or, Bool, false, ◌||◌, List, [], ◌∷◌, ◌==◌,
  if◌then◌else◌, get_or,
}

unfoldable pub add_checksum_byte : ℕ → ℕ → ℕ
add_checksum_byte sum byte = (bit_or (sum * 2 ^ 15) (sum / 2) + byte) % 2 ^ 16

-- `sum << 31` is cut to 32 bits before the addition.
unfoldable pub add_vbr_byte : ℕ → ℕ → ℕ
add_vbr_byte sum byte = (bit_or (sum * 2 ^ 31 % 2 ^ 32) (sum / 2) + byte) % 2 ^ 32

-- A loop over the bytes `i`, `i + 1`, …, which passes over some positions.
unfoldable pub sum_bytes : (ℕ → ℕ → ℕ) → (ℕ → Bool) → ℕ → List ℕ → ℕ → ℕ
sum_bytes step skip i [] sum = sum
sum_bytes step skip i (byte ∷ bytes) sum =
    sum_bytes step skip (i + 1) bytes (if skip i then sum else step sum byte)

abbrev pub nowhere : ℕ → Bool
nowhere i = false

-- The checksum field itself.
abbrev pub checksum_field : ℕ → Bool
checksum_field i = i == 2 || i == 3

-- `volume_state` and `allocated_percent`.
abbrev pub mutable_fields : ℕ → Bool
mutable_fields i = i == 0x6a || i == 0x6b || i == 0x70

unfoldable pub start_checksum : List ℕ → ℕ
unfolding sum_bytes add_checksum_byte
start_checksum entry = sum_bytes add_checksum_byte checksum_field 0 entry 0

unfoldable pub add_checksum : List ℕ → ℕ → ℕ
unfolding sum_bytes add_checksum_byte
add_checksum entry sum = sum_bytes add_checksum_byte nowhere 0 entry sum

unfoldable pub add_entries : List (List ℕ) → ℕ → ℕ
unfolding add_checksum
add_entries [] sum = sum
add_entries (entry ∷ entries) sum = add_entries entries (add_checksum entry sum)

-- The set has at least its first entry.
unfoldable pub calc_checksum : List (List ℕ) → ℕ
unfolding start_checksum add_entries
calc_checksum [] = 0
calc_checksum (entry ∷ entries) = add_entries entries (start_checksum entry)

unfoldable pub vbr_start_checksum : List ℕ → ℕ
unfolding sum_bytes add_vbr_byte
vbr_start_checksum sector = sum_bytes add_vbr_byte mutable_fields 0 sector 0

unfoldable pub vbr_add_checksum : List ℕ → ℕ → ℕ
unfolding sum_bytes add_vbr_byte
vbr_add_checksum sector sum = sum_bytes add_vbr_byte nowhere 0 sector sum

unfoldable pub add_sectors : List (List ℕ) → ℕ → ℕ
unfolding vbr_add_checksum
add_sectors [] sum = sum
add_sectors (sector ∷ sectors) sum = add_sectors sectors (vbr_add_checksum sector sum)

-- The sum over the boot region, as it is written and as it is verified.
unfoldable pub vbr_checksum : List (List ℕ) → ℕ
unfolding vbr_start_checksum add_sectors
vbr_checksum [] = 0
vbr_checksum (sector ∷ sectors) = add_sectors sectors (vbr_start_checksum sector)

-- Both bytes of each upper-cased character; `upcase` is `ef->upcase`.
unfoldable pub calc_name_hash : List ℕ → List ℕ → ℕ → ℕ
unfolding add_checksum_byte
calc_name_hash upcase [] hash = hash
calc_name_hash upcase (unit ∷ name) hash =
    let c = get_or upcase unit 0 in
    calc_name_hash upcase name
      (add_checksum_byte (add_checksum_byte hash (bit_and c 0xff)) (c / 2 ^ 8))
