-- ===== src/Mount/Summed.antt =====
-- What the check of the boot region accepts, without repair.
use exfat.Prelude.{
  ℕ, zero, suc, ◌+◌, ◌*◌, ◌/◌, ◌<◌, ◌≤◌, ◌≡◌, ◌≢◌, refl, ap, sym, ◌∙◌, ◌⊎◌, inl, inr, Bool, true,
  false, some, List, [], ◌∷◌, take, drop, ◌==◌, arith, Bool-cases, ==→eq, ==→ne,
}
use exfat.Prelude.Effect.{eio, pure, raise, failed, done}
use exfat.Prelude.Effect.Steps.{bind_done, branch-true, branch-false}
use native.Mathlib.Nat.{suc-mul}
use exfat.Checksum.{vbr_start_checksum, vbr_add_checksum, add_sectors, vbr_checksum}
use exfat.Dirent.{field}
use exfat.Chain.{Device}
use exfat.Io.Reads.{IsExact}
use exfat.Io.Contiguous.{IsFlat}
use exfat.Mount.{read_at, next_sector, check_words, sum_sectors, verify_vbr_checksum}
use exfat.Mount.Verify.{verify_vbr_checksum-whole}

-- The first `n` sectors of a region.
abbrev pub sectors : ℕ → ℕ → List ℕ → List (List ℕ)
sectors size zero region = []
sectors size (suc n) region = take size region ∷ sectors size n (drop size region)

-- The words of the last of twelve sectors all are the checksum of the eleven before it.
abbrev pub IsSummed : ℕ → List ℕ → Type 0
IsSummed size region =
    (j : ℕ)
    → j < size / 4
    → field 4 (take size (drop (11 * size) region)) (4 * j) ≡ vbr_checksum (sectors size 11 region)

drop-drop : (n m : ℕ) (xs : List ℕ) → drop n (drop m xs) ≡ drop (m + n) xs
drop-drop n zero xs = let none : n ≡ 0 + n = omega arith in ap (λ k. drop k xs) none
drop-drop zero (suc m) [] = let more : suc m + 0 ≡ suc m = omega arith in rw more refl
drop-drop (suc n) (suc m) [] =
    let more : suc m + suc n ≡ suc (m + suc n) = omega arith in rw more refl
drop-drop n (suc m) (x ∷ xs) =
    let more : suc (m + n) ≡ suc m + n = omega arith in
    drop-drop n m xs ∙ ap (λ k. drop k (x ∷ xs)) more

module _ (D : Device) (size : ℕ) (dev : D.Store) where
  AllWords : ℕ → ℕ → ℕ → List ℕ → Type 0
  AllWords from to sum sector = (j : ℕ) → from ≤ j → j < to → field 4 sector (4 * j) ≡ sum

  check_words-AllWords :
      (n i sum : ℕ) (sector : List ℕ)
      → (AllWords i (i + n) sum sector
          × (check_words D size false n i sum sector dev ≡ done tt dev))
        ⊎ ((j : ℕ) × (j < i + n)
            × (field 4 sector (4 * j) ≢ sum)
            × (check_words D size false n i sum sector dev ≡ failed eio dev))
  unfolding check_words pure raise AllWords
  check_words-AllWords zero i sum sector =
      inl ((λ j low high. absurd (omega (arith, low, high))), refl)
  check_words-AllWords (suc n) i sum sector = elim (Bool-cases (field 4 sector (4 * i) == sum)) [
    | inl same ↦
        let on = branch-true (λ d. field 4 sector (4 * i) == sum) _ _ dev same in
        elim (check_words-AllWords n (i + 1) sum sector) [
          | inl (all, e) ↦ inl (
            (λ j low high. elim (Bool-cases (j == i)) [
              | inl here ↦
                  ap (λ k. field 4 sector (4 * k)) (==→eq j i here)
                  ∙ ==→eq (field 4 sector (4 * i)) sum same
              | inr past ↦ all j (omega (arith, low, ==→ne j i past)) (omega (arith, high))
            ]),
            on ∙ e,
          )
          | inr (j, high, wrong, e) ↦ inr (j, omega (arith, high), wrong, on ∙ e)
        ]
    | inr other ↦ inr (
      i,
      omega arith,
      ==→ne (field 4 sector (4 * i)) sum other,
      branch-false (λ d. field 4 sector (4 * i) == sum) _ _ dev other
          ∙ branch-false (λ d. false) _ (raise eio) dev refl,
    )
  ]

  sum_sectors-add_sectors :
      (n i sum : ℕ) (buffer : List ℕ)
      → sum_sectors D size false n true i buffer sum dev
        ≡ check_words D size false
            (size / 4)
            0
            (add_sectors (sectors size n (drop size buffer)) sum)
            (take size (drop (suc n * size) buffer))
            dev
  unfolding sum_sectors next_sector pure add_sectors
  sum_sectors-add_sectors zero i sum buffer =
      let one : 1 * size ≡ size = omega arith in
      bind_done (next_sector D size false true i buffer)
        (λ sector. check_words D size false (size / 4) 0 sum (take size sector)) dev dev
        (drop size buffer) refl
      ∙ ap (λ k. check_words D size false (size / 4) 0 sum (take size (drop k buffer)) dev)
          (sym one)
  sum_sectors-add_sectors (suc n) i sum buffer =
      let sum' = vbr_add_checksum (take size (drop size buffer)) sum in
      let all = add_sectors (sectors size n (drop size (drop size buffer))) sum' in
      let more : size + suc n * size ≡ suc (suc n) * size = omega (arith, suc-mul (suc n) size) in
      bind_done (next_sector D size false true i buffer)
        (λ sector.
          sum_sectors D size false n true (i + 1) sector (vbr_add_checksum (take size sector) sum))
        dev dev (drop size buffer) refl
      ∙ sum_sectors-add_sectors n (i + 1) sum' (drop size buffer)
      ∙ ap (λ xs. check_words D size false (size / 4) 0 all (take size xs) dev)
          (drop-drop (suc n * size) size buffer ∙ ap (λ k. drop k buffer) more)

  Verified : Bool → List ℕ → Type 0
  Verified whole region =
      (IsSummed size region × (verify_vbr_checksum D size false whole dev ≡ done tt dev))
      ⊎ (¬ IsSummed size region × (verify_vbr_checksum D size false whole dev ≡ failed eio dev))

  Verified-whole :
      (region : List ℕ) → D.pread dev (12 * size) 0 ≡ some region → Verified true region
  unfolding verify_vbr_checksum read_at vbr_checksum Verified AllWords
  Verified-whole region read =
      let sum = vbr_checksum (sectors size 11 region) in
      let last = take size (drop (11 * size) region) in
      let run =
        bind_done (read_at D (12 * size) 0)
          (λ buffer.
            sum_sectors D size false 10 true 1 buffer (vbr_start_checksum (take size buffer)))
          dev dev region (rw (read_at, read) refl)
        ∙ sum_sectors-add_sectors 10 1 (vbr_start_checksum (take size region)) region in
      elim (check_words-AllWords (size / 4) 0 sum last) [
        | inl (all, e) ↦ inl ((λ j below. all j (omega arith) (omega (arith, below))), run ∙ e)
        | inr (j, below, wrong, e) ↦
            inr ((λ summed. absurd (wrong (summed j (omega (arith, below))))), run ∙ e)
      ]

-- On a device that reads exactly and whose reads can be cut in two, where the boot region can be read, its
-- check without repair succeeds when every word of the twelfth sector is the checksum of the eleven before
-- it, and fails with EIO when one is not, whether the region is read in one request or sector by sector.
pub verify_vbr_checksum-IsSummed :
    (D : Device) (size : ℕ) (whole : Bool) (dev : D.Store) (region : List ℕ)
    → IsFlat D
    → IsExact D
    → D.pread dev (12 * size) 0 ≡ some region
    → (IsSummed size region × (verify_vbr_checksum D size false whole dev ≡ done tt dev))
      ⊎ (¬ IsSummed size region × (verify_vbr_checksum D size false whole dev ≡ failed eio dev))
unfolding Verified
verify_vbr_checksum-IsSummed D size true dev region flat exact read =
    Verified-whole D size dev region read
verify_vbr_checksum-IsSummed D size false dev region flat exact read =
    let same = verify_vbr_checksum-whole D size false dev region flat exact read in
    elim (Verified-whole D size dev region read) [
      | inl (all, e) ↦ inl (all, sym same ∙ e)
      | inr (wrong, e) ↦ inr (wrong, sym same ∙ e)
    ]
