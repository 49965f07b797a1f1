-- ===== src/Partition.antt =====
-- Partition tables: amiga/parttable.c. The device is the interface of Chain; `exfat_pread` gives the bytes
-- that it stores, which may be fewer than a block: none at all behind the end of the device. What it does
-- not store stays in the buffer as it was. An offset past 2 ^ 63 stands for a negative one. A byte past the
-- end of a block reads as 0. A failed allocation, and the log, are not modelled.
pub mod Found
mod Examples
use exfat.Prelude.{
  ℕ, zero, suc, ◌+◌, ◌-◌, ◌*◌, ◌/◌, ◌%◌, ◌^◌, min, Bool, true, false, not, ◌&&◌, ◌||◌, Option, none,
  some, List, [], ◌∷◌, ◌++◌, ◌==◌, ltb, leb, if◌then◌else◌, get_or, take, drop, length, replicate,
}
use mathlib.Core.Option
use exfat.Bitmap.{u32}
use exfat.Dirent.{field}
use exfat.Chain.{Device}

abbrev pub mbr_table : ℕ
mbr_table = 446

abbrev pub mbr_entry_size : ℕ
mbr_entry_size = 16

abbrev pub mbr_sig : ℕ
mbr_sig = 510

abbrev pub mbr_type_gpt : ℕ
mbr_type_gpt = 0xee

abbrev pub ebr_max_links : ℕ
ebr_max_links = 16

abbrev pub oem_name : List ℕ
oem_name = 0x45 ∷ 0x58 ∷ 0x46 ∷ 0x41 ∷ 0x54 ∷ 0x20 ∷ 0x20 ∷ 0x20 ∷ []

abbrev pub efi_part : List ℕ
efi_part = 0x45 ∷ 0x46 ∷ 0x49 ∷ 0x20 ∷ 0x50 ∷ 0x41 ∷ 0x52 ∷ 0x54 ∷ []

unfoldable pub same_bytes : List ℕ → List ℕ → Bool
same_bytes [] [] = true
same_bytes [] (b ∷ bs) = false
same_bytes (a ∷ xs) [] = false
same_bytes (a ∷ xs) (b ∷ bs) = let rest = same_bytes xs bs in a == b && rest

abbrev pub has_boot_sector : List ℕ → Bool
has_boot_sector buf = same_bytes (take 8 (drop 3 buf)) oem_name

pub record Partition : Type 0 where
  pub first_lba : ℕ
  pub sectors : ℕ

-- `add`, which leaves a full table as it is.
unfoldable pub add : ℕ → List Partition → ℕ → ℕ → List Partition
add max out first count =
    if leb max (length out)
    then out
    else out ++ (record { first_lba = first; sectors = count }) ∷ []

abbrev pub is_extended_type : ℕ → Bool
is_extended_type type = type == 0x05 || type == 0x0f || type == 0x85

-- The buffer after a read that stores some bytes.
abbrev pub stored_over : List ℕ → List ℕ → List ℕ
stored_over buf bytes = bytes ++ drop (length bytes) buf

module _ (D : Device) (dev : D.Store) (blocksize : ℕ) where
  -- The read of a block, and the buffer after it; `none` is an error.
  unfoldable pub read_block : List ℕ → ℕ → Option (List ℕ)
  read_block buf lba =
      Option.map (stored_over buf) (D.pread dev blocksize (lba * blocksize % 2 ^ 64))

  abbrev pub clear_block : List ℕ
  clear_block = replicate blocksize 0

  -- The result, and the probe buffer, which the calls share.
  unfoldable pub is_exfat_at : List ℕ → ℕ → Bool × List ℕ
  unfolding same_bytes read_block
  is_exfat_at buf lba = elim (read_block buf lba) [
    | none ↦ (false, buf)
    | some buf' ↦ (has_boot_sector buf', buf')
  ]

  -- The partitions found, and the probe buffer.
  abbrev pub Scan : Type 0
  Scan = List Partition × List ℕ

  module _ (max : ℕ) where
    unfoldable pub add_if : Bool → Scan → ℕ → ℕ → Scan
    unfolding add is_exfat_at
    add_if false found first count = found
    add_if true (out, buf) first count =
        let probe = is_exfat_at buf first in
        (if probe.0 then add max out first count else out, probe.1)

    -- One EBR, and the rest of the chain.
    unfoldable pub ebr_step : ℕ → (List ℕ → ℕ → Scan → Scan) → ℕ → Scan → Option (List ℕ) → Scan
    unfolding add_if
    ebr_step ext_start rest here found none = found
    ebr_step ext_start rest here found (some ebr) =
        let logical = drop mbr_table ebr in
        let next = drop (mbr_table + mbr_entry_size) ebr in
        let first = here + field 4 logical 8 in
        let count = field 4 logical 12 in
        let nextrel = field 4 next 8 in
        let found' = add_if (not (get_or logical 4 0 == 0) && not (count == 0)) found first count in
        if not (field 2 ebr mbr_sig == 0xaa55)
        then found
        else if get_or next 4 0 == 0 || nextrel == 0
        then found'
        else rest ebr (ext_start + nextrel) found'

    unfoldable pub scan_extended : ℕ → ℕ → List ℕ → ℕ → Scan → Scan
    unfolding ebr_step read_block
    scan_extended ext_start zero ebr here found = found
    scan_extended ext_start (suc links) ebr here found =
        if leb max (length found.0)
        then found
        else ebr_step ext_start (scan_extended ext_start links) here found (read_block ebr here)

    -- One GPT entry, and the rest of the entries.
    unfoldable pub gpt_step : (List ℕ → Scan → Scan) → ℕ → Scan → Option (List ℕ) → Scan
    unfolding add_if
    gpt_step rest off found none = found
    gpt_step rest off found (some hdr) =
        let first = field 8 hdr (off + 32) in
        let last = field 8 hdr (off + 40) in
        if field 8 hdr off == 0 && field 8 hdr (off + 8) == 0
        then rest hdr found
        else if ltb last first
        then rest hdr found
        else rest hdr (add_if true found first ((last - first + 1) % 2 ^ 64))

    unfoldable pub gpt_entries : ℕ → ℕ → ℕ → ℕ → List ℕ → Scan → Scan
    unfolding gpt_step read_block
    gpt_entries ent_lba ent_size zero i hdr found = found
    gpt_entries ent_lba ent_size (suc n) i hdr found =
        if leb max (length found.0)
        then found
        else gpt_step (gpt_entries ent_lba ent_size n (i + 1)) (u32 (i * ent_size) % blocksize)
            found (read_block hdr (ent_lba + u32 (i * ent_size) / blocksize))

    unfoldable pub with_header : Scan → Option (List ℕ) → Scan
    unfolding gpt_entries same_bytes
    with_header found none = found
    with_header found (some hdr) =
        if not (same_bytes (take 8 hdr) efi_part)
        then found
        else gpt_entries (field 8 hdr 72) (field 4 hdr 84) (min 128 (field 4 hdr 80)) 0 hdr found

    abbrev pub scan_gpt : Scan → Scan
    scan_gpt found = with_header found (read_block clear_block 1)

    -- One MBR entry, whose table is in the probe buffer.
    unfoldable pub mbr_entry : ℕ → Scan → Scan
    unfolding with_header scan_extended add_if read_block
    mbr_entry i found =
        let e = drop (mbr_table + i * mbr_entry_size) found.1 in
        let first = field 4 e 8 in
        if get_or e 4 0 == mbr_type_gpt
        then scan_gpt found
        else if is_extended_type (get_or e 4 0)
        then scan_extended first ebr_max_links clear_block first found
        else add_if true found first (field 4 e 12)

    -- The MBR is read again after every entry that is looked into.
    unfoldable pub mbr_step : (Scan → Scan) → List Partition → Option (List ℕ) → Scan
    mbr_step rest out none = (out, [])
    mbr_step rest out (some buf) = rest (out, buf)

    unfoldable pub mbr_entries : ℕ → ℕ → Scan → Scan
    unfolding mbr_entry mbr_step read_block
    mbr_entries zero i found = found
    mbr_entries (suc n) i found =
        let e = drop (mbr_table + i * mbr_entry_size) found.1 in
        let found' = mbr_entry i found in
        if leb max (length found.0)
        then found
        else if get_or e 4 0 == 0 || field 4 e 12 == 0
        then mbr_entries n (i + 1) found
        else mbr_step (mbr_entries n (i + 1)) found'.0 (read_block found'.1 0)

    unfoldable pub from_block : ℕ → Option (List ℕ) → List Partition
    unfolding add mbr_entries same_bytes
    from_block total_sectors none = []
    from_block total_sectors (some buf) =
        if has_boot_sector buf
        then add max [] 0 total_sectors
        else if not (field 2 buf mbr_sig == 0xaa55)
        then []
        else (mbr_entries 4 0 ([], buf)).0

    abbrev pub scan_partitions : ℕ → List Partition
    scan_partitions total_sectors = from_block total_sectors (read_block clear_block 0)
