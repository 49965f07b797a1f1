-- ===== src/Partition/Found.antt =====
-- What a scan reports: places that hold an exFAT boot sector, or that the device has no bytes for, and no
-- more than asked for.
use exfat.Prelude.{
  ℕ, zero, suc, ◌+◌, ◌*◌, ◌/◌, ◌%◌, ◌≤◌, ◌≡◌, refl, min, Bool, true, false, not, ◌&&◌, Option, none,
  some, List, [], ◌∷◌, ◌++◌, ◌==◌, leb, if◌then◌else◌, get_or, drop, length, length-append, arith,
  ◌^◌, ◌<◌, ◌⊎◌, sym, ap, ◌∙◌, inl, inr, Bool-cases, leb→le, take,
}
use mathlib.Core.Option
use mathlib.Core.Option.{some-injective}
use exfat.Bitmap.{u32}
use exfat.Dirent.{field}
use exfat.Chain.{Device}
use exfat.Partition.{
  Partition, Scan, stored_over, clear_block, oem_name, same_bytes, add, add_if, is_exfat_at,
  ebr_step, scan_extended, gpt_step, gpt_entries, with_header, mbr_entry, mbr_step, mbr_entries,
  from_block, scan_partitions, has_boot_sector, mbr_table, mbr_entry_size, read_block,
}

-- The device fails at no such read, and its bytes there, if they reach behind the name of the file system,
-- have the name of exFAT. Behind the end of the device there are none.
pub record IsExfat (D : Device) (dev : D.Store) (blocksize lba : ℕ) : Type 0 where
  pub bytes : List ℕ
  pub read : D.pread dev blocksize (lba * blocksize % 2 ^ 64) ≡ some bytes
  pub named : (has_boot_sector bytes ≡ true) ⊎ (length bytes < 11)

pub data AllExfat (D : Device) (dev : D.Store) (blocksize : ℕ) : List Partition → Type 0 where
  nothing : AllExfat D dev blocksize []
  and_one :
      (out : List Partition) (p : Partition)
      → AllExfat D dev blocksize out
      → IsExfat D dev blocksize p.first_lba
      → AllExfat D dev blocksize (out ++ p ∷ [])

take-stored : (n : ℕ) (xs ys : List ℕ) → n ≤ length xs → take n (xs ++ ys) ≡ take n xs
take-stored zero xs ys h = refl
take-stored (suc n) [] ys h = absurd (omega (arith, h))
take-stored (suc n) (x ∷ xs) ys h = ap (λ l. x ∷ l) (take-stored n xs ys (omega (arith, h)))

part-stored :
    (k n : ℕ) (xs ys : List ℕ) → k + n ≤ length xs → take n (drop k (xs ++ ys)) ≡ take n (drop k xs)
part-stored zero n xs ys h = take-stored n xs ys (omega (arith, h))
part-stored (suc k) n [] ys h = absurd (omega (arith, h))
part-stored (suc k) n (x ∷ xs) ys h = part-stored k n xs ys (omega (arith, h))

named_lem :
    (buf bytes : List ℕ)
    → has_boot_sector (stored_over buf bytes) ≡ true
    → (has_boot_sector bytes ≡ true) ⊎ (length bytes < 11)
named_lem buf bytes h = elim (Bool-cases (leb 11 (length bytes))) [
  | inl long ↦ inl (
      ap (λ l. same_bytes l oem_name)
        (sym (part-stored 3 8 bytes (drop (length bytes) buf) (leb→le 11 (length bytes) long)))
      ∙ h)
  | inr short ↦ inr (ground (arith, short))
]

module _ (D : Device) (dev : D.Store) (blocksize max : ℕ) where
  abbrev pub IsReport : List Partition → Type 0
  IsReport out = AllExfat D dev blocksize out × (length out ≤ max)

  record Reports (found : Scan D dev blocksize) : Type 0 where
    out : IsReport found.0

  Reports-if :
      (b : Bool) (x y : Scan D dev blocksize) → Reports x → Reports y → Reports (if b then x else y)
  Reports-if true x y hx hy = hx
  Reports-if false x y hx hy = hy

  read-IsExfat :
      (buf buf' : List ℕ) (lba : ℕ)
      → read_block D dev blocksize buf lba ≡ some buf'
      → has_boot_sector buf' ≡ true
      → IsExfat D dev blocksize lba
  unfolding read_block
  read-IsExfat buf buf' lba e named = go (D.pread dev blocksize (lba * blocksize % 2 ^ 64)) refl e
    where
      go :
          (o : Option (List ℕ))
          → D.pread dev blocksize (lba * blocksize % 2 ^ 64) ≡ o
          → Option.map (stored_over buf) o ≡ some buf'
          → IsExfat D dev blocksize lba
      go none at e' = ground (arith, e')
      go (some bytes) at e' = record {
        bytes = bytes;
        read = at;
        named = named_lem buf bytes (ap has_boot_sector (some-injective _ _ e') ∙ named);
      }

  is_exfat_at-IsExfat :
      (buf : List ℕ) (lba : ℕ)
      → (is_exfat_at D dev blocksize buf lba).0 ≡ true
      → IsExfat D dev blocksize lba
  unfolding is_exfat_at
  is_exfat_at-IsExfat buf lba = go (read_block D dev blocksize buf lba) refl
    where
      go :
          (o : Option (List ℕ))
          → read_block D dev blocksize buf lba ≡ o
          → (let probe : Bool × List ℕ = elim o [
            | none ↦ (false, buf)
            | some buf' ↦ (has_boot_sector buf', buf')
          ] in
              probe.0)
            ≡ true
          → IsExfat D dev blocksize lba
      go none e h = ground (arith, h)
      go (some buf') e h = read-IsExfat buf buf' lba e h

  add-IsReport :
      (out : List Partition) (first count : ℕ)
      → IsReport out
      → IsExfat D dev blocksize first
      → IsReport (add max out first count)
  unfolding add
  add-IsReport out first count (all, few) exfat = elim (Bool-cases (leb max (length out))) [
    | inl full ↦ rw full (all, few)
    | inr room ↦
        let one : List Partition = record { first_lba = first; sectors = count } ∷ [] in
        rw room (and_one out _ all exfat, ground (arith, room, length-append out one))
  ]

  add_if-Reports :
      (test : Bool) (found : Scan D dev blocksize) (first count : ℕ)
      → Reports found
      → Reports (add_if D dev blocksize max test found first count)
  unfolding add_if
  add_if-Reports false found first count ok = ok
  add_if-Reports true (out, buf) first count ok = record {
    out = elim (Bool-cases (is_exfat_at D dev blocksize buf first).0) [
      | inl e ↦ rw e (add-IsReport out first count ok.out (is_exfat_at-IsExfat buf first e))
      | inr e ↦ rw e (ok.out)
    ];
  }

  ebr_step-Reports :
      (ext_start : ℕ) (rest : List ℕ → ℕ → Scan D dev blocksize → Scan D dev blocksize)
      → ((ebr : List ℕ) (here : ℕ) (found : Scan D dev blocksize)
          → Reports found
          → Reports (rest ebr here found))
      → (here : ℕ) (found : Scan D dev blocksize) (ebr : Option (List ℕ)) → Reports found
      → Reports (ebr_step D dev blocksize max ext_start rest here found ebr)
  unfolding ebr_step
  ebr_step-Reports ext_start rest keeps here found none ok = ok
  ebr_step-Reports ext_start rest keeps here found (some ebr) ok =
      let logical = drop mbr_table ebr in
      let probed =
        add_if-Reports (not (get_or logical 4 0 == 0) && not (field 4 logical 12 == 0)) found
          (here + field 4 logical 8) (field 4 logical 12) ok in
      Reports-if _ _ _ ok (Reports-if _ _ _ probed (keeps ebr _ _ probed))

  scan_extended-Reports :
      (ext_start links : ℕ) (ebr : List ℕ) (here : ℕ) (found : Scan D dev blocksize)
      → Reports found
      → Reports (scan_extended D dev blocksize max ext_start links ebr here found)
  unfolding scan_extended
  scan_extended-Reports ext_start zero ebr here found ok = ok
  scan_extended-Reports ext_start (suc links) ebr here found ok = Reports-if _ _ _ ok (
      ebr_step-Reports ext_start _ (scan_extended-Reports ext_start links) here found
        (read_block D dev blocksize ebr here) ok)

  gpt_step-Reports :
      (rest : List ℕ → Scan D dev blocksize → Scan D dev blocksize)
      → ((hdr : List ℕ) (found : Scan D dev blocksize) → Reports found → Reports (rest hdr found))
      → (off : ℕ) (found : Scan D dev blocksize) (hdr : Option (List ℕ)) → Reports found
      → Reports (gpt_step D dev blocksize max rest off found hdr)
  unfolding gpt_step
  gpt_step-Reports rest keeps off found none ok = ok
  gpt_step-Reports rest keeps off found (some hdr) ok =
      let again = keeps hdr found ok in
      Reports-if _ _ _ again
        (Reports-if _ _ _ again (keeps hdr _ (add_if-Reports true found _ _ ok)))

  gpt_entries-Reports :
      (ent_lba ent_size n i : ℕ) (hdr : List ℕ) (found : Scan D dev blocksize)
      → Reports found
      → Reports (gpt_entries D dev blocksize max ent_lba ent_size n i hdr found)
  unfolding gpt_entries
  gpt_entries-Reports ent_lba ent_size zero i hdr found ok = ok
  gpt_entries-Reports ent_lba ent_size (suc n) i hdr found ok = Reports-if _ _ _ ok (
      gpt_step-Reports _ (gpt_entries-Reports ent_lba ent_size n (i + 1))
        (u32 (i * ent_size) % blocksize) found
        (read_block D dev blocksize hdr (ent_lba + u32 (i * ent_size) / blocksize)) ok)

  with_header-Reports :
      (found : Scan D dev blocksize) (hdr : Option (List ℕ))
      → Reports found
      → Reports (with_header D dev blocksize max found hdr)
  unfolding with_header
  with_header-Reports found none ok = ok
  with_header-Reports found (some hdr) ok = Reports-if _ _ _ ok (
      gpt_entries-Reports (field 8 hdr 72) (field 4 hdr 84) (min 128 (field 4 hdr 80)) 0 hdr found
        ok)

  mbr_entry-Reports :
      (i : ℕ) (found : Scan D dev blocksize)
      → Reports found
      → Reports (mbr_entry D dev blocksize max i found)
  unfolding mbr_entry
  mbr_entry-Reports i found ok =
      let first = field 4 (drop (mbr_table + i * mbr_entry_size) found.1) 8 in
      Reports-if _ _ _
        (with_header-Reports found (read_block D dev blocksize (clear_block D dev blocksize) 1) ok)
        (Reports-if _ _ _
          (scan_extended-Reports first 16 (clear_block D dev blocksize) first found ok)
          (add_if-Reports true found _ _ ok))

  mbr_step-Reports :
      (rest : Scan D dev blocksize → Scan D dev blocksize)
      → ((found : Scan D dev blocksize) → Reports found → Reports (rest found))
      → (out : List Partition) (buf : Option (List ℕ)) → IsReport out
      → Reports (mbr_step D dev blocksize max rest out buf)
  unfolding mbr_step
  mbr_step-Reports rest keeps out none ok = record { out = ok }
  mbr_step-Reports rest keeps out (some buf) ok = keeps (out, buf) (record { out = ok })

  mbr_entries-Reports :
      (n i : ℕ) (found : Scan D dev blocksize)
      → Reports found
      → Reports (mbr_entries D dev blocksize max n i found)
  unfolding mbr_entries
  mbr_entries-Reports zero i found ok = ok
  mbr_entries-Reports (suc n) i found ok =
      let found' = mbr_entry D dev blocksize max i found in
      Reports-if _ _ _ ok (
        Reports-if _ _ _ (mbr_entries-Reports n (i + 1) found ok) (
          mbr_step-Reports _ (mbr_entries-Reports n (i + 1)) found'.0
            (read_block D dev blocksize found'.1 0) (mbr_entry-Reports i found ok).out))

-- Whatever stands on the device, and however its reads fall short, the partitions that a scan reports are
-- at most max, and at the start of each of them a read does not fail and either gives the name of an exFAT
-- boot sector or ends before it.
pub scan_partitions-IsReport :
    (D : Device) (dev : D.Store) (blocksize max total_sectors : ℕ)
    → IsReport D dev blocksize max (scan_partitions D dev blocksize max total_sectors)
unfolding from_block
scan_partitions-IsReport D dev blocksize max total_sectors =
    go (read_block D dev blocksize (clear_block D dev blocksize) 0) refl
  where
    nothing_yet : IsReport D dev blocksize max []
    nothing_yet = (nothing, omega arith)

    go :
        (block : Option (List ℕ))
        → read_block D dev blocksize (clear_block D dev blocksize) 0 ≡ block
        → IsReport D dev blocksize max (from_block D dev blocksize max total_sectors block)
    go none e = nothing_yet
    go (some buf) e = elim (Bool-cases (has_boot_sector buf)) [
      | inl named ↦ rw named (
          add-IsReport D dev blocksize max [] 0 total_sectors nothing_yet
            (read-IsExfat D dev blocksize max (clear_block D dev blocksize) buf 0 e named))
      | inr other ↦ elim (Bool-cases (not (field 2 buf 510 == 0xaa55))) [
        | inl none_there ↦ rw (other, none_there) nothing_yet
        | inr table ↦
            rw (other, table)
              (mbr_entries-Reports D dev blocksize max 4 0 ([], buf)
                (record { out = nothing_yet })).out
      ]
    ]
