-- ===== src/Mount/Verify.antt =====
-- The check of the boot region in one request and sector by sector.
use exfat.Prelude.{
  ℕ, zero, suc, ◌+◌, ◌*◌, ◌/◌, ◌≡◌, refl, ap, sym, subst, ◌∙◌, Bool, true, false, some, List, [],
  ◌∷◌, ◌++◌, take, drop, length, arith,
}
use exfat.Prelude.Effect.{pure, done}
use exfat.Prelude.Effect.Steps.{bind_done}
use native.Mathlib.Nat.{suc-mul, add-mul}
use exfat.Checksum.{vbr_start_checksum, vbr_add_checksum}
use exfat.Chain.{Device}
use exfat.Io.Reads.{IsExact}
use exfat.Io.Contiguous.{IsFlat}
use exfat.Mount.{read_at, next_sector, check_words, sum_sectors, verify_vbr_checksum}

take-append : (xs ys : List ℕ) (n : ℕ) → length xs ≡ n → take n (xs ++ ys) ≡ xs
take-append [] ys zero h = refl
take-append [] ys (suc n) h = absurd (omega (arith, h))
take-append (x ∷ xs) ys zero h = absurd (omega (arith, h))
take-append (x ∷ xs) ys (suc n) h = ap (λ t. x ∷ t) (take-append xs ys n (omega (arith, h)))

drop-append : (xs ys : List ℕ) (n : ℕ) → length xs ≡ n → drop n (xs ++ ys) ≡ ys
drop-append [] ys zero h = refl
drop-append [] ys (suc n) h = absurd (omega (arith, h))
drop-append (x ∷ xs) ys zero h = absurd (omega (arith, h))
drop-append (x ∷ xs) ys (suc n) h = drop-append xs ys n (omega (arith, h))

take_all : (xs : List ℕ) (n : ℕ) → length xs ≡ n → take n xs ≡ xs
take_all [] zero h = refl
take_all [] (suc n) h = absurd (omega (arith, h))
take_all (x ∷ xs) zero h = absurd (omega (arith, h))
take_all (x ∷ xs) (suc n) h = ap (λ t. x ∷ t) (take_all xs n (omega (arith, h)))

module _ (D : Device) (flat : IsFlat D) (exact : IsExact D) (size : ℕ) (fix : Bool)
    (dev : D.Store) where
  read_lem :
      (n offset : ℕ) (bytes : List ℕ)
      → D.pread dev n offset ≡ some bytes
      → read_at D n offset dev ≡ done bytes dev
  unfolding read_at
  read_lem n offset bytes h = rw (read_at, h) refl

  sum_sectors_lem :
      (n i sum : ℕ) (buffer other rest : List ℕ)
      → drop size buffer ≡ rest
      → D.pread dev (suc n * size) (i * size) ≡ some rest
      → sum_sectors D size fix n true i buffer sum dev
        ≡ sum_sectors D size fix n false i other sum dev
  unfolding sum_sectors next_sector pure
  sum_sectors_lem zero i sum buffer other rest at read =
      let checked =
        λ (sector : List ℕ). check_words D size fix (size / 4) 0 sum (take size sector) in
      let one : 1 * size ≡ size = omega arith in
      let single : D.pread dev size (i * size) ≡ some rest =
        subst (λ k. D.pread dev k (i * size) ≡ some rest) one read in
      bind_done (next_sector D size fix true i buffer) checked dev dev (drop size buffer) refl
      ∙ ap (λ b. checked b dev) at
      ∙ sym (
          bind_done (next_sector D size fix false i other) checked dev dev rest
            (read_lem size (i * size) rest single))
  sum_sectors_lem (suc n) i sum buffer other rest at read =
      let more : suc (suc n) * size ≡ size + suc n * size = omega (arith, suc-mul (suc n) size) in
      let (x, y, first, second, whole) =
        flat dev size (suc n * size) (i * size) rest
          (subst (λ k. D.pread dev k (i * size) ≡ some rest) more read) in
      let long = exact dev size (i * size) x first in
      let on : i * size + size ≡ (i + 1) * size = omega (arith, suc-mul i size, add-mul i 1 size) in
      let head : take size (drop size buffer) ≡ take size x =
        ap (take size) (at ∙ whole) ∙ take-append x y size long ∙ sym (take_all x size long) in
      let next = λ (b : Bool) (sector : List ℕ).
        sum_sectors D size fix n b (i + 1) sector (vbr_add_checksum (take size sector) sum) in
      bind_done (next_sector D size fix true i buffer) (next true) dev dev (drop size buffer) refl
      ∙ ap
          (λ t.
            sum_sectors D size fix n true (i + 1) (drop size buffer) (vbr_add_checksum t sum) dev)
          head
      ∙ sum_sectors_lem n (i + 1) (vbr_add_checksum (take size x) sum) (drop size buffer) x y
          (ap (drop size) (at ∙ whole) ∙ drop-append x y size long)
          (subst (λ o. D.pread dev (suc n * size) o ≡ some y) on second)
      ∙ sym (
          bind_done (next_sector D size fix false i other) (next false) dev dev x
            (read_lem size (i * size) x first))

-- On a device that reads exactly and whose reads can be cut in two, where the boot region can be read,
-- checking the boot region in one request ends as checking it sector by sector does: in the same
-- result or error, and with the same repairs on the device.
pub verify_vbr_checksum-whole :
    (D : Device) (size : ℕ) (fix : Bool) (dev : D.Store) (region : List ℕ)
    → IsFlat D
    → IsExact D
    → D.pread dev (12 * size) 0 ≡ some region
    → verify_vbr_checksum D size fix true dev ≡ verify_vbr_checksum D size fix false dev
unfolding verify_vbr_checksum
verify_vbr_checksum-whole D size fix dev region flat exact read =
    let more : 12 * size ≡ size + 11 * size = omega arith in
    let (x, y, first, second, whole) =
      flat dev size (11 * size) 0 region (subst (λ k. D.pread dev k 0 ≡ some region) more read) in
    let long = exact dev size 0 x first in
    let start = λ (b : Bool) (buffer : List ℕ).
      sum_sectors D size fix 10 b 1 buffer (vbr_start_checksum (take size buffer)) in
    let place : 0 + size ≡ 1 * size = omega arith in
    let read_whole = read_lem D flat exact size fix dev (12 * size) 0 region read in
    bind_done (read_at D (12 * size) 0) (start true) dev dev region read_whole
    ∙ ap (λ t. sum_sectors D size fix 10 true 1 region (vbr_start_checksum t) dev)
        (ap (take size) whole ∙ take-append x y size long ∙ sym (take_all x size long))
    ∙ sum_sectors_lem D flat exact size fix dev 10 1 (vbr_start_checksum (take size x)) region x y
        (ap (drop size) whole ∙ drop-append x y size long)
        (subst (λ o. D.pread dev (11 * size) o ≡ some y) place second)
    ∙ sym (
        bind_done (read_at D size 0) (start false) dev dev x
          (read_lem D flat exact size fix dev size 0 x first))
