-- ===== src/Prelude/Fields.antt =====
-- Fields of a word: `|` of disjoint fields is a sum, `&` with a mask cuts a field out.
use Prim.Native.Nat.{ℕ, zero, suc, ◌+◌, ◌-◌, ◌*◌, ◌/◌, ◌%◌, ◌^◌, ◌≤◌, ◌<◌, bit_and, bit_or}
use mathlib.Core.Path.{◌≡◌, refl, ap, ◌∙◌}
use native.Mathlib.Omega.{arith}
use native.Mathlib.Nat.{pow-suc, div-div-eq-div-mul, mod-eq_of_lt, div-lt_iff_lt-mul}
use exfat.Prelude.Bits.{bit_or_step, bit_and_step, bit_and-zero, pow_pos, mod_pow_suc}

bit_or-zero_fuel : (n a : ℕ) → a ≤ n → bit_or a 0 ≡ a
bit_or-zero_fuel n zero h = refl
bit_or-zero_fuel zero (suc a) h = absurd (omega arith)
bit_or-zero_fuel (suc n) (suc a) h =
    omega (arith, bit_or_step (suc a) 0, bit_or-zero_fuel n (suc a / 2) (omega arith))

bit_or-zero : (a : ℕ) → bit_or a 0 ≡ a
bit_or-zero a = bit_or-zero_fuel a a (omega arith)

twice : (q k : ℕ) → q * 2 ^ suc k ≡ 2 * (q * 2 ^ k)
twice q k = omega (arith, ap (λ (t : ℕ). q * t) (pow-suc 2 k))

-- `(q << k) | r` for an `r` below the shift.
pub bit_or_field : (k q r : ℕ) → r < 2 ^ k → bit_or (q * 2 ^ k) r ≡ q * 2 ^ k + r
bit_or_field zero q r h = ground (arith, bit_or-zero q)
bit_or_field (suc k) q r h = ground (
  arith,
  bit_or_step (q * 2 ^ suc k) r,
  twice q k,
  bit_or_field k q (r / 2) (omega (arith, pow-suc 2 k)),
)

-- `x & (2 ^ k - 1)`.
pub bit_and_low : (k x : ℕ) → bit_and x (2 ^ k - 1) ≡ x % 2 ^ k
bit_and_low zero x = omega (arith, bit_and-zero x)
bit_and_low (suc k) x =
    let odd : (2 ^ suc k - 1) / 2 ≡ 2 ^ k - 1 = omega (arith, pow-suc 2 k, pow_pos k) in
    omega (
      arith,
      bit_and_step x (2 ^ suc k - 1),
      ap (bit_and (x / 2)) odd,
      bit_and_low k (x / 2),
      mod_pow_suc k x,
      pow-suc 2 k,
      pow_pos k,
    )

-- A mask shifted up by `k` bits leaves the bits below alone.
pub bit_and_high : (k m x : ℕ) → bit_and x (m * 2 ^ k) ≡ bit_and (x / 2 ^ k) m * 2 ^ k
bit_and_high zero m x =
    let one : m * 1 ≡ m = omega arith in
    let whole : x / 1 ≡ x = omega arith in rw (one, whole) (omega arith)
bit_and_high (suc k) m x =
    let half : m * 2 ^ suc k / 2 ≡ m * 2 ^ k = omega (arith, twice m k) in
    let quarter : x / 2 / 2 ^ k ≡ x / 2 ^ suc k =
      div-div-eq-div-mul x 2 (2 ^ k)
      ∙ ap (λ t. x / t) (let e : 2 * 2 ^ k ≡ 2 ^ suc k = omega (arith, pow-suc 2 k) in e) in
    omega (
      arith,
      bit_and_step x (m * 2 ^ suc k),
      twice m k,
      ap (bit_and (x / 2)) half,
      bit_and_high k m (x / 2),
      ap (λ (t : ℕ). bit_and t m * 2 ^ k) quarter,
      twice (bit_and (x / 2 ^ suc k) m) k,
    )

-- `x & mask` for a mask of `w` ones above `k` zeros.
pub bit_and_field : (k w x : ℕ) → bit_and x ((2 ^ w - 1) * 2 ^ k) ≡ x / 2 ^ k % 2 ^ w * 2 ^ k
bit_and_field k w x = bit_and_high k (2 ^ w - 1) x ∙ ap (λ t. t * 2 ^ k) (bit_and_low w (x / 2 ^ k))

zero-bit_or : (a : ℕ) → bit_or 0 a ≡ a
zero-bit_or a = go a a (omega arith)
  where
    go : (n a : ℕ) → a ≤ n → bit_or 0 a ≡ a
    go n zero h = refl
    go zero (suc a) h = absurd (omega arith)
    go (suc n) (suc a) h = omega (arith, bit_or_step 0 (suc a), go n (suc a / 2) (omega arith))

-- `r | (q << k)`.
pub field_bit_or : (k q r : ℕ) → r < 2 ^ k → bit_or r (q * 2 ^ k) ≡ r + q * 2 ^ k
field_bit_or zero q r h = let none : r ≡ 0 = omega arith in rw none (ground (arith, zero-bit_or q))
field_bit_or (suc k) q r h = ground (
  arith,
  bit_or_step r (q * 2 ^ suc k),
  twice q k,
  field_bit_or k q (r / 2) (omega (arith, pow-suc 2 k)),
)

-- `(1 << (j + m))`.
pub pow_add : (j m : ℕ) → 2 ^ (j + m) ≡ 2 ^ j * 2 ^ m
pow_add zero m =
    let same : 0 + m ≡ m = omega arith in
    let once : 2 ^ m ≡ 1 * 2 ^ m = omega arith in ap (λ t. 2 ^ t) same ∙ once
pow_add (suc j) m =
    let same : suc j + m ≡ suc (j + m) = omega arith in
    let next = ap (λ t. 2 ^ t) same ∙ pow-suc 2 (j + m) in
    omega (arith, next, pow_add j m, ap (λ x. x * 2 ^ m) (pow-suc 2 j))

less_one : (p k : ℕ) → 0 < p → (p - 1) * k + k ≡ k * p
less_one zero k h = absurd (omega arith)
less_one (suc p) k h = let pred : suc p - 1 ≡ p = omega arith in omega (arith, ap (λ x. x * k) pred)

-- `x & ~(2 ^ k - 1)`, for a word of `w` bits.
pub bit_and_whole : (w k x : ℕ) → k ≤ w → x < 2 ^ w → bit_and x (2 ^ w - 2 ^ k) ≡ x / 2 ^ k * 2 ^ k
bit_and_whole w k x h small =
    let parts : 2 ^ w ≡ 2 ^ k * 2 ^ (w - k) =
      (let e : w ≡ k + (w - k) = omega arith in ap (λ t. 2 ^ t) e) ∙ pow_add k (w - k) in
    let mask : 2 ^ w - 2 ^ k ≡ (2 ^ (w - k) - 1) * 2 ^ k =
      omega (arith, parts, less_one (2 ^ (w - k)) (2 ^ k) (pow_pos (w - k))) in
    let low : x / 2 ^ k < 2 ^ (w - k) =
      (div-lt_iff_lt-mul (pow_pos k)).1 (omega (arith, parts, small)) in
    rw (mask, bit_and_high k (2 ^ (w - k) - 1) x, bit_and_low (w - k) (x / 2 ^ k), mod-eq_of_lt low)
      refl
