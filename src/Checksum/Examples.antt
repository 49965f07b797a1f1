-- ===== src/Checksum/Examples.antt =====
-- The checksums of short data.
use exfat.Prelude.{ℕ, ◌≡◌, ◌↔◌, true, List, [], ◌∷◌, set, get_or, arith}
use exfat.Checksum.{calc_checksum, vbr_checksum, checksum_field, mutable_fields}
use exfat.Checksum.Entries.{calc_checksum-set}
use exfat.Checksum.Boot.{vbr_checksum-set}

abbrev entries : List (List ℕ)
entries = (0x85 ∷ 2 ∷ 0x12 ∷ 0x34 ∷ []) ∷ (0xc0 ∷ 1 ∷ 0 ∷ 3 ∷ []) ∷ []

abbrev first : ℕ
first = 0

abbrev second : ℕ
second = 1

calc_checksum-set_example :
    calc_checksum (set entries 1 (set (get_or entries 1 []) 3 4)) ≡ calc_checksum entries
    ↔ (second ≡ 0) × (checksum_field 3 ≡ true)
calc_checksum-set_example =
    calc_checksum-set entries 1 3 4 (omega arith) (omega arith) (omega arith) (omega arith)
      (omega arith)

vbr_checksum-set_example :
    vbr_checksum (set entries 0 (set (get_or entries 0 []) 2 9)) ≡ vbr_checksum entries
    ↔ (first ≡ 0) × (mutable_fields 2 ≡ true)
vbr_checksum-set_example =
    vbr_checksum-set entries 0 2 9 (omega arith) (omega arith) (omega arith) (omega arith)
      (omega arith)
