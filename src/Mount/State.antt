-- ===== src/Mount/State.antt =====
-- The fields of the boot sector that a mounted volume changes.
use exfat.Prelude.{
  ℕ, bit_and, ◌+◌, ◌-◌, ◌*◌, ◌/◌, ◌%◌, ◌^◌, ◌≤◌, ◌<◌, ◌≡◌, refl, ap, sym, subst, ◌∙◌, Bool, true,
  false, List, ◌==◌, get_or, set, length, if◌then◌else◌, arith, length-set, get_or-set_self,
  get_or-set_ne,
}
use native.Mathlib.Nat.{add-mul, div-add-mod', mod-lt, div-lt_iff_lt-mul}
use exfat.Bitmap.{Endian, Cmap, count_free_clusters, u32}
use exfat.Bitmap.Count.{used_count, count_free_clusters-used_count}
use exfat.Checksum.{add_vbr_byte, mutable_fields, vbr_start_checksum}
use exfat.Checksum.Detect.{add_vbr_byte-IsMixing, sum_bytes-set_skipped}
use exfat.Dirent.{field, put}
use exfat.Mount.{soiled, clean, percent, finalized}

set_skipped :
    (sb : List ℕ) (j v : ℕ)
    → mutable_fields j ≡ true
    → vbr_start_checksum (set sb j v) ≡ vbr_start_checksum sb
unfolding vbr_start_checksum
set_skipped sb j v h =
    let at : 0 + j ≡ j = omega arith in
    sum_bytes-set_skipped (2 ^ 32) add_vbr_byte mutable_fields add_vbr_byte-IsMixing 0 j sb v 0
      (ap mutable_fields at ∙ h)

put_state : (sb : List ℕ) (v : ℕ) → vbr_start_checksum (put 2 sb 106 v) ≡ vbr_start_checksum sb
put_state sb v = set_skipped _ 107 _ refl ∙ set_skipped sb 106 _ refl

-- Neither the mark of a mounted volume nor the fields that are written when it is unmounted change the
-- checksum of the boot sector, so that the checksum that the volume stores stays right.
pub finalized-vbr_start_checksum :
    (e : Endian) (cmap : Cmap) (sb : List ℕ)
    → (vbr_start_checksum (soiled sb) ≡ vbr_start_checksum sb)
      × (vbr_start_checksum (finalized e cmap sb) ≡ vbr_start_checksum sb)
finalized-vbr_start_checksum e cmap sb = (put_state sb _, go (get_or (clean sb) 112 0 == 0xff))
  where
    go :
        (b : Bool)
        → vbr_start_checksum (
            if b
            then clean sb
            else set (clean sb) 112 (percent (count_free_clusters e cmap) (field 4 sb 92) % 2 ^ 8))
          ≡ vbr_start_checksum sb
    go true = put_state sb _
    go false = set_skipped (clean sb) 112 _ refl ∙ put_state sb _

-- The percentage is the nearest one.
pub record IsPercent (used total p : ℕ) : Type 0 where
  pub at_most : p ≤ 100
  pub low : p * total ≤ used * 100 + total / 2
  pub high : used * 100 + total / 2 < (p + 1) * total

percent-IsPercent :
    (free used total : ℕ)
    → free + used ≡ total
    → 0 < total
    → total * 101 < 2 ^ 32
    → IsPercent used total (percent free total)
percent-IsPercent free used total whole positive small =
    let sum = used * 100 + total / 2 in
    let exact : u32 (u32 (u32 (total + 2 ^ 32 - free) * 100) + total / 2) ≡ sum = omega arith in
    let less : sum / total < 101 = (div-lt_iff_lt-mul positive).1 (omega arith) in
    let split = div-add-mod' sum total in
    let part = mod-lt sum positive in
    ap-percent (sum / total) (ap (λ (t : ℕ). t / total) exact) (record {
      at_most = omega (arith, less);
      low = omega (arith, split);
      high = omega (arith, split, part, add-mul (sum / total) 1 total);
    })
  where
    ap-percent :
        (p : ℕ)
        → percent free total ≡ p
        → IsPercent used total p
        → IsPercent used total (percent free total)
    ap-percent p e is = subst (λ q. IsPercent used total q) (sym e) is

-- When a volume whose bitmap is valid, not empty, as large as the boot sector says and of less than
-- 2^32 / 101 clusters is unmounted, and its percentage is in use, the byte that is written is the
-- percentage of used clusters, rounded to the nearest, and at most 100.
pub finalized-IsPercent :
    (e : Endian) (cmap : Cmap) (sb : List ℕ)
    → 113 ≤ length sb
    → field 4 sb 92 ≡ cmap.size
    → 0 < cmap.size
    → cmap.size * 101 < 2 ^ 32
    → (get_or sb 112 0 == 0xff) ≡ false
    → IsPercent (used_count e cmap.chunk cmap.size) cmap.size (get_or (finalized e cmap sb) 112 0)
finalized-IsPercent e cmap sb long same positive small used =
    let free = count_free_clusters e cmap in
    let p = percent free (field 4 sb 92) in
    let state = bit_and (field 2 sb 106) 0xfffd in
    let kept : get_or (clean sb) 112 0 ≡ get_or sb 112 0 =
      get_or-set_ne (set sb 106 (state % 2 ^ 8)) 107 112 (state / 2 ^ 8 % 2 ^ 8) 0 (omega arith)
      ∙ get_or-set_ne sb 106 112 (state % 2 ^ 8) 0 (omega arith) in
    let test : (get_or (clean sb) 112 0 == 0xff) ≡ false = ap (λ (b : ℕ). b == 0xff) kept ∙ used in
    let still : length (clean sb) ≡ length sb =
      length-set (set sb 106 (state % 2 ^ 8)) 107 (state / 2 ^ 8 % 2 ^ 8)
      ∙ length-set sb 106 (state % 2 ^ 8) in
    let value : get_or (finalized e cmap sb) 112 0 ≡ p % 2 ^ 8 =
      ap (λ (t : Bool). get_or (if t then clean sb else set (clean sb) 112 (p % 2 ^ 8)) 112 0) test
      ∙ get_or-set_self (clean sb) 112 (p % 2 ^ 8) 0 (omega (arith, still, long)) in
    let is : IsPercent (used_count e cmap.chunk cmap.size) cmap.size (percent free cmap.size) =
      percent-IsPercent free (used_count e cmap.chunk cmap.size) cmap.size
        (count_free_clusters-used_count e cmap (omega (arith, small))) positive small in
    let all : p ≡ percent free cmap.size = ap (percent free) same in
    subst (IsPercent (used_count e cmap.chunk cmap.size) cmap.size)
      (sym (value ∙ omega (arith, is.at_most, all))) is
