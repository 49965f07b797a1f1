-- ===== src/Checksum/Entries.antt =====
-- The checksum of an entry set: it covers every byte but its own field.
use exfat.Prelude.{
  ℕ, zero, suc, ◌^◌, ◌<◌, ◌≡◌, ◌≢◌, ◌↔◌, inl, inr, refl, ap, ◌∙◌, ◌+◌, true, List, [], ◌∷◌, get_or,
  set, length, arith, Bool-cases,
}
use exfat.Checksum.{
  add_checksum_byte, nowhere, checksum_field, start_checksum, add_checksum, add_entries,
  calc_checksum,
}
use exfat.Checksum.Detect.{
  add_checksum_byte-IsMixing, sum_bytes-lt, sum_bytes-injective, sum_bytes-set_skipped,
  sum_bytes-set,
}

add_checksum-lt : (entry : List ℕ) (sum : ℕ) → sum < 2 ^ 16 → add_checksum entry sum < 2 ^ 16
unfolding add_checksum
add_checksum-lt = sum_bytes-lt (2 ^ 16) add_checksum_byte nowhere add_checksum_byte-IsMixing 0

start_checksum-lt : (entry : List ℕ) → start_checksum entry < 2 ^ 16
unfolding start_checksum
start_checksum-lt entry =
    sum_bytes-lt (2 ^ 16) add_checksum_byte checksum_field add_checksum_byte-IsMixing 0 entry 0
      (omega arith)

add_entries-injective :
    (entries : List (List ℕ)) (s t : ℕ)
    → s < 2 ^ 16
    → t < 2 ^ 16
    → add_entries entries s ≡ add_entries entries t
    → s ≡ t
unfolding add_entries
add_entries-injective [] s t hs ht e = e
add_entries-injective (entry ∷ entries) s t hs ht e =
    let same =
      add_entries-injective entries (add_checksum entry s) (add_checksum entry t)
        (add_checksum-lt entry s hs) (add_checksum-lt entry t ht) e in
    sum_bytes-injective (2 ^ 16) add_checksum_byte nowhere add_checksum_byte-IsMixing 0 entry s t hs
      ht (unfold add_checksum in same)

-- A byte of a later entry always counts.
add_entries-set :
    (entries : List (List ℕ)) (k j v sum : ℕ)
    → sum < 2 ^ 16
    → k < length entries
    → j < length (get_or entries k [])
    → get_or (get_or entries k []) j 0 < 256
    → v < 256
    → v ≢ get_or (get_or entries k []) j 0
    → add_entries (set entries k (set (get_or entries k []) j v)) sum ≢ add_entries entries sum
unfolding add_entries
add_entries-set [] k j v sum hs hk hj old new ne = elim hk [ ]
add_entries-set (entry ∷ entries) zero j v sum hs hk hj old new ne = λ e.
    let same =
      add_entries-injective entries (add_checksum (set entry j v) sum) (add_checksum entry sum)
        (add_checksum-lt (set entry j v) sum hs) (add_checksum-lt entry sum hs) e in
    sum_bytes-set (2 ^ 16) add_checksum_byte nowhere add_checksum_byte-IsMixing 0 j entry v sum hs
      refl hj old new ne (unfold add_checksum in same)
add_entries-set (entry ∷ entries) (suc k) j v sum hs hk hj old new ne =
    add_entries-set entries k j v (add_checksum entry sum) (add_checksum-lt entry sum hs)
      (omega arith) hj old new ne

from_zero : (j : ℕ) → 0 + j ≡ j
from_zero j = omega arith

-- When byte j of entry k of an entry set takes another value, the checksum of the set stays the
-- same if the byte belongs to the checksum field of the first entry, and changes otherwise.
pub calc_checksum-set :
    (entries : List (List ℕ)) (k j v : ℕ)
    → k < length entries
    → j < length (get_or entries k [])
    → get_or (get_or entries k []) j 0 < 256
    → v < 256
    → v ≢ get_or (get_or entries k []) j 0
    → calc_checksum (set entries k (set (get_or entries k []) j v)) ≡ calc_checksum entries
      ↔ (k ≡ 0) × (checksum_field j ≡ true)
unfolding calc_checksum
calc_checksum-set [] k j v hk hj old new ne = elim hk [ ]
calc_checksum-set (entry ∷ entries) zero j v hk hj old new ne =
    elim (Bool-cases (checksum_field j)) [
      | inl skipped ↦ (
        (λ e. (refl, skipped)),
        λ h. ap (add_entries entries) (
            unfold start_checksum in
            sum_bytes-set_skipped (2 ^ 16) add_checksum_byte checksum_field
              add_checksum_byte-IsMixing 0 j entry v 0 (ap checksum_field (from_zero j) ∙ skipped)),
      )
      | inr read ↦ (
        (λ e.
            let same =
              add_entries-injective entries (start_checksum (set entry j v)) (start_checksum entry)
                (start_checksum-lt (set entry j v)) (start_checksum-lt entry) e in
            elim (sum_bytes-set (2 ^ 16) add_checksum_byte checksum_field add_checksum_byte-IsMixing
              0 j entry v 0 (omega arith) (ap checksum_field (from_zero j) ∙ read) hj old new ne
              (unfold start_checksum in same)) [ ]),
        λ h. cc,
      )
    ]
calc_checksum-set (entry ∷ entries) (suc k) j v hk hj old new ne = (
  (λ e.
      elim (add_entries-set entries k j v (start_checksum entry) (start_checksum-lt entry)
        (omega arith) hj old new ne e) [ ]),
  λ h. let no : suc k ≢ 0 = omega arith in elim (no h.0) [ ],
)

-- The bytes of the checksum field do not count.
pub calc_checksum-field :
    (entry : List ℕ) (entries : List (List ℕ)) (low high : ℕ)
    → calc_checksum (set (set entry 2 low) 3 high ∷ entries) ≡ calc_checksum (entry ∷ entries)
unfolding calc_checksum start_checksum
calc_checksum-field entry entries low high =
    let skip =
      sum_bytes-set_skipped (2 ^ 16) add_checksum_byte checksum_field add_checksum_byte-IsMixing
        0 in
    ap (add_entries entries) (skip 3 (set entry 2 low) high 0 refl ∙ skip 2 entry low 0 refl)

add_entries-lt :
    (entries : List (List ℕ)) (sum : ℕ) → sum < 2 ^ 16 → add_entries entries sum < 2 ^ 16
unfolding add_entries
add_entries-lt [] sum lt = lt
add_entries-lt (entry ∷ entries) sum lt =
    add_entries-lt entries (add_checksum entry sum) (add_checksum-lt entry sum lt)

pub calc_checksum-lt : (entries : List (List ℕ)) → calc_checksum entries < 2 ^ 16
unfolding calc_checksum
calc_checksum-lt [] = omega arith
calc_checksum-lt (entry ∷ entries) =
    add_entries-lt entries (start_checksum entry) (start_checksum-lt entry)
