-- ===== src/Checksum/Boot.antt =====
-- The checksum of the boot region: it covers every byte but the fields that a mounted volume writes.
use exfat.Prelude.{
  ℕ, zero, suc, ◌^◌, ◌<◌, ◌≡◌, ◌≢◌, ◌↔◌, inl, inr, refl, ap, ◌∙◌, ◌+◌, true, List, [], ◌∷◌, get_or,
  set, length, arith, Bool-cases,
}
use exfat.Checksum.{
  add_vbr_byte, nowhere, mutable_fields, vbr_start_checksum, vbr_add_checksum, add_sectors,
  vbr_checksum,
}
use exfat.Checksum.Detect.{
  add_vbr_byte-IsMixing, sum_bytes-lt, sum_bytes-injective, sum_bytes-set_skipped, sum_bytes-set,
}

vbr_add_checksum-lt :
    (sector : List ℕ) (sum : ℕ) → sum < 2 ^ 32 → vbr_add_checksum sector sum < 2 ^ 32
unfolding vbr_add_checksum
vbr_add_checksum-lt = sum_bytes-lt (2 ^ 32) add_vbr_byte nowhere add_vbr_byte-IsMixing 0

vbr_start_checksum-lt : (sector : List ℕ) → vbr_start_checksum sector < 2 ^ 32
unfolding vbr_start_checksum
vbr_start_checksum-lt sector =
    sum_bytes-lt (2 ^ 32) add_vbr_byte mutable_fields add_vbr_byte-IsMixing 0 sector 0 (omega arith)

add_sectors-injective :
    (sectors : List (List ℕ)) (s t : ℕ)
    → s < 2 ^ 32
    → t < 2 ^ 32
    → add_sectors sectors s ≡ add_sectors sectors t
    → s ≡ t
unfolding add_sectors
add_sectors-injective [] s t hs ht e = e
add_sectors-injective (sector ∷ sectors) s t hs ht e =
    let same =
      add_sectors-injective sectors (vbr_add_checksum sector s) (vbr_add_checksum sector t)
        (vbr_add_checksum-lt sector s hs) (vbr_add_checksum-lt sector t ht) e in
    sum_bytes-injective (2 ^ 32) add_vbr_byte nowhere add_vbr_byte-IsMixing 0 sector s t hs ht
      (unfold vbr_add_checksum in same)

-- A byte of a later sector always counts.
add_sectors-set :
    (sectors : List (List ℕ)) (k j v sum : ℕ)
    → sum < 2 ^ 32
    → k < length sectors
    → j < length (get_or sectors k [])
    → get_or (get_or sectors k []) j 0 < 256
    → v < 256
    → v ≢ get_or (get_or sectors k []) j 0
    → add_sectors (set sectors k (set (get_or sectors k []) j v)) sum ≢ add_sectors sectors sum
unfolding add_sectors
add_sectors-set [] k j v sum hs hk hj old new ne = elim hk [ ]
add_sectors-set (sector ∷ sectors) zero j v sum hs hk hj old new ne = λ e.
    let same =
      add_sectors-injective sectors (vbr_add_checksum (set sector j v) sum)
        (vbr_add_checksum sector sum) (vbr_add_checksum-lt (set sector j v) sum hs)
        (vbr_add_checksum-lt sector sum hs) e in
    sum_bytes-set (2 ^ 32) add_vbr_byte nowhere add_vbr_byte-IsMixing 0 j sector v sum hs refl hj
      old new ne (unfold vbr_add_checksum in same)
add_sectors-set (sector ∷ sectors) (suc k) j v sum hs hk hj old new ne =
    add_sectors-set sectors k j v (vbr_add_checksum sector sum) (vbr_add_checksum-lt sector sum hs)
      (omega arith) hj old new ne

from_zero : (j : ℕ) → 0 + j ≡ j
from_zero j = omega arith

-- When byte j of sector k of the boot region takes another value, its checksum stays the same if
-- the byte is `volume_state` or `allocated_percent` of the first sector, and changes otherwise.
pub vbr_checksum-set :
    (sectors : List (List ℕ)) (k j v : ℕ)
    → k < length sectors
    → j < length (get_or sectors k [])
    → get_or (get_or sectors k []) j 0 < 256
    → v < 256
    → v ≢ get_or (get_or sectors k []) j 0
    → vbr_checksum (set sectors k (set (get_or sectors k []) j v)) ≡ vbr_checksum sectors
      ↔ (k ≡ 0) × (mutable_fields j ≡ true)
unfolding vbr_checksum
vbr_checksum-set [] k j v hk hj old new ne = elim hk [ ]
vbr_checksum-set (sector ∷ sectors) zero j v hk hj old new ne =
    elim (Bool-cases (mutable_fields j)) [
      | inl skipped ↦ (
        (λ e. (refl, skipped)),
        λ h. ap (add_sectors sectors) (
            unfold vbr_start_checksum in
            sum_bytes-set_skipped (2 ^ 32) add_vbr_byte mutable_fields add_vbr_byte-IsMixing 0 j
              sector v 0 (ap mutable_fields (from_zero j) ∙ skipped)),
      )
      | inr read ↦ (
        (λ e.
            let same =
              add_sectors-injective sectors (vbr_start_checksum (set sector j v))
                (vbr_start_checksum sector) (vbr_start_checksum-lt (set sector j v))
                (vbr_start_checksum-lt sector) e in
            elim (sum_bytes-set (2 ^ 32) add_vbr_byte mutable_fields add_vbr_byte-IsMixing 0 j
              sector v 0 (omega arith) (ap mutable_fields (from_zero j) ∙ read) hj old new ne
              (unfold vbr_start_checksum in same)) [ ]),
        λ h. cc,
      )
    ]
vbr_checksum-set (sector ∷ sectors) (suc k) j v hk hj old new ne = (
  (λ e.
      elim (add_sectors-set sectors k j v (vbr_start_checksum sector) (vbr_start_checksum-lt sector)
        (omega arith) hj old new ne e) [ ]),
  λ h. let no : suc k ≢ 0 = omega arith in elim (no h.0) [ ],
)
