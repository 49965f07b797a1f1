-- ===== src/Prelude/Bits.antt =====
-- The bits of a machine word: `&`, `|` and `~` read digit by digit.
use Prim.Native.Nat.{
  ℕ, zero, suc, ◌+◌, ◌-◌, ◌*◌, ◌/◌, ◌%◌, ◌^◌, ◌≤◌, ◌<◌, min, max, bit_and, bit_or, digits,
  bit_and-bitwise, bit_or-bitwise,
}
use mathlib.Core.Path.{◌≡◌, refl, ap, sym, ◌∙◌}
use mathlib.Core.Logic.{◌≢◌}
use mathlib.Core.Bool.{not}
use native.Mathlib.Omega.{arith}
use native.Mathlib.Nat.{
  div-div-eq-div-mul, pow-suc, one-le-pow, mod-lt, mod-eq_of_lt, div-add-mod, add-mul-mod_self_left,
}
use exfat.Prelude.Tests.{◌==◌}

-- Bit `k` of a number, as 0 or 1.
unfoldable pub bit : ℕ → ℕ → ℕ
bit x zero = x % 2
bit x (suc k) = bit (x / 2) k

pub bit-le : (x k : ℕ) → bit x k ≤ 1
unfolding bit
bit-le x zero = omega arith
bit-le x (suc k) = bit-le (x / 2) k

bit_zero : (j : ℕ) → bit 0 j ≡ 0
unfolding bit
bit_zero zero = refl
bit_zero (suc j) = bit_zero j

-- An operation on digits, and what it makes of a number when the other has no digits left.
record IsDigitwise (z : ℕ → ℕ) (f : ℕ → ℕ → ℕ) : Type 0 where
  digit : (x y : ℕ) → x ≤ 1 → y ≤ 1 → f x y ≤ 1
  rest : (b k : ℕ) → bit (z b) k ≡ f 0 (bit b k)

-- The recursion of the native operations, seen at one bit.
bit-digits :
    (z : ℕ → ℕ) (f : ℕ → ℕ → ℕ)
    → IsDigitwise z f
    → (n a b k : ℕ) → a ≤ n
    → bit (digits z f n a b) k ≡ f (bit a k) (bit b k)
unfolding bit
bit-digits z f ok n zero b k le = out n ∙ ap (λ x. f x (bit b k)) (sym (bit_zero k))
  where
    out : (n : ℕ) → bit (digits z f n 0 b) k ≡ f 0 (bit b k)
    out zero = ok.rest b k
    out (suc n) = ok.rest b k
bit-digits z f ok zero (suc a) b k le = elim le [ ]
bit-digits z f ok (suc n) (suc a) b k le =
    at k λ j. bit-digits z f ok n (suc a / 2) (b / 2) j (omega arith)
  where
    quotient : ℕ
    quotient = digits z f n (suc a / 2) (b / 2)

    low : f (suc a % 2) (b % 2) ≤ 1
    low = ok.digit (suc a % 2) (b % 2) (omega arith) (omega arith)

    at :
        (k : ℕ)
        → ((j : ℕ) → bit quotient j ≡ f (bit (suc a / 2) j) (bit (b / 2) j))
        → bit (quotient * 2 + f (suc a % 2) (b % 2)) k ≡ f (bit (suc a) k) (bit b k)
    at zero higher = omega (arith, low)
    at (suc k) higher =
        let halved : (quotient * 2 + f (suc a % 2) (b % 2)) / 2 ≡ quotient = omega (arith, low) in
        ap (λ x. bit x k) halved ∙ higher k

pub bit-bit_or : (a b k : ℕ) → bit (bit_or a b) k ≡ max (bit a k) (bit b k)
bit-bit_or a b k =
    let ok : IsDigitwise (λ y. y) max = record {
      digit = λ x y hx hy. omega arith;
      rest = λ b k. omega arith;
    } in
    ap (λ x. bit x k) (bit_or-bitwise a b) ∙ bit-digits (λ y. y) max ok a a b k (omega arith)

pub bit-bit_and : (a b k : ℕ) → bit (bit_and a b) k ≡ min (bit a k) (bit b k)
bit-bit_and a b k =
    let ok : IsDigitwise (λ y. 0) min = record {
      digit = λ x y hx hy. omega arith;
      rest = λ b k. omega (arith, bit_zero k);
    } in
    ap (λ x. bit x k) (bit_and-bitwise a b) ∙ bit-digits (λ y. 0) min ok a a b k (omega arith)

-- A number is its bits.
bit_ext_below : (n x y : ℕ) → x ≤ n → y ≤ n → ((k : ℕ) → bit x k ≡ bit y k) → x ≡ y
unfolding bit
bit_ext_below zero x y hx hy e = omega arith
bit_ext_below (suc n) x y hx hy e =
    let halves : x / 2 ≡ y / 2 =
      bit_ext_below n (x / 2) (y / 2) (omega arith) (omega arith) λ k. e (suc k) in
    omega (arith, e 0)

pub bit_ext : (x y : ℕ) → ((k : ℕ) → bit x k ≡ bit y k) → x ≡ y
bit_ext x y = bit_ext_below (x + y) x y (omega arith) (omega arith)

-- A lowest digit in front of other digits.
bit-digit : (q d r : ℕ) → d ≤ 1 → r % 2 ≡ d → ((k : ℕ) → bit (r / 2) k ≡ bit q k) → r ≡ q * 2 + d
unfolding bit
bit-digit q d r le low high = omega (arith, low, bit_ext (r / 2) q high)

pub bit_or_step : (a b : ℕ) → bit_or a b ≡ bit_or (a / 2) (b / 2) * 2 + max (a % 2) (b % 2)
unfolding bit
bit_or_step a b =
    bit-digit (bit_or (a / 2) (b / 2)) (max (a % 2) (b % 2)) (bit_or a b) (omega arith)
      (bit-bit_or a b 0) λ k. bit-bit_or a b (suc k) ∙ sym (bit-bit_or (a / 2) (b / 2) k)

pub bit_and_step : (a b : ℕ) → bit_and a b ≡ bit_and (a / 2) (b / 2) * 2 + min (a % 2) (b % 2)
unfolding bit
bit_and_step a b =
    bit-digit (bit_and (a / 2) (b / 2)) (min (a % 2) (b % 2)) (bit_and a b) (omega arith)
      (bit-bit_and a b 0) λ k. bit-bit_and a b (suc k) ∙ sym (bit-bit_and (a / 2) (b / 2) k)

half_pow : (k : ℕ) → 2 ^ suc k / 2 ≡ 2 ^ k
half_pow k = omega (arith, pow-suc 2 k)

pub bit_pow_self : (k : ℕ) → bit (2 ^ k) k ≡ 1
unfolding bit
bit_pow_self zero = refl
bit_pow_self (suc k) = rw (half_pow k) (bit_pow_self k)

pub bit_pow_ne : (k j : ℕ) → k ≢ j → bit (2 ^ k) j ≡ 0
unfolding bit
bit_pow_ne zero zero ne = absurd (ne refl)
bit_pow_ne zero (suc j) ne = bit_zero j
bit_pow_ne (suc k) zero ne = omega (arith, pow-suc 2 k)
bit_pow_ne (suc k) (suc j) ne = rw (half_pow k) (bit_pow_ne k j (λ e. ne (ap suc e)))

-- `~x` in a word of `w` bits.
abbrev pub complement : ℕ → ℕ → ℕ
complement w x = 2 ^ w - 1 - x % 2 ^ w

pub pow_pos : (w : ℕ) → 0 < 2 ^ w
pow_pos w = one-le-pow w 2 (omega arith)

pub mod_pow_suc : (w x : ℕ) → x % 2 ^ suc w ≡ (x / 2) % 2 ^ w * 2 + x % 2
mod_pow_suc w x =
    let p = 2 ^ w in
    let q = x / 2 / p in
    let r = (x / 2) % p in
    let small : r < p = mod-lt (x / 2) (pow_pos w) in
    let whole : x / 2 ≡ p * q + r = sym (div-add-mod (x / 2) p) in
    let whole' : x ≡ (r * 2 + x % 2) + 2 ^ suc w * q =
      omega (arith, pow-suc 2 w, ap (λ (t : ℕ). t * q) (pow-suc 2 w)) in
    let fits : r * 2 + x % 2 < 2 ^ suc w = omega (arith, pow-suc 2 w) in
    ap (λ t. t % 2 ^ suc w) whole'
    ∙ add-mul-mod_self_left (r * 2 + x % 2) (2 ^ suc w) q
    ∙ mod-eq_of_lt fits

pub bit-complement : (w x j : ℕ) → j < w → bit (complement w x) j ≡ 1 - bit x j
unfolding bit
bit-complement zero x j h = elim h [ ]
bit-complement (suc w) x zero h =
    omega (arith, mod_pow_suc w x, pow-suc 2 w, mod-lt (x / 2) (pow_pos w))
bit-complement (suc w) x (suc j) h =
    let e : complement (suc w) x / 2 ≡ complement w (x / 2) =
      omega (arith, mod_pow_suc w x, pow-suc 2 w, mod-lt (x / 2) (pow_pos w)) in
    rw e (bit-complement w (x / 2) j (omega arith))

-- A mask of one bit tests that bit.
pub bit_and-zero : (a : ℕ) → bit_and a 0 ≡ 0
bit_and-zero a = bit_ext (bit_and a 0) 0 λ k. omega (arith, bit-bit_and a 0 k, bit_zero k)

pub bit_and_pow : (x k : ℕ) → bit_and x (2 ^ k) ≡ bit x k * 2 ^ k
unfolding bit
bit_and_pow x zero = omega (arith, bit_and_step x 1, bit_and_step (x / 2) 0, bit_and-zero (x / 2))
bit_and_pow x (suc k) = omega (
  arith,
  bit_and_step x (2 ^ suc k),
  ap (bit_and (x / 2)) (half_pow k),
  bit_and_pow (x / 2) k,
  pow-suc 2 k,
  ap (λ (t : ℕ). bit (x / 2) k * t) (pow-suc 2 k),
)

-- `word | mask` and `word & ~mask`, for a mask of one bit.
pub bit-set_self : (x k : ℕ) → bit (bit_or x (2 ^ k)) k ≡ 1
bit-set_self x k = omega (arith, bit-bit_or x (2 ^ k) k, bit_pow_self k, bit-le x k)

pub bit-set_ne : (x k j : ℕ) → k ≢ j → bit (bit_or x (2 ^ k)) j ≡ bit x j
bit-set_ne x k j ne = omega (arith, bit-bit_or x (2 ^ k) j, bit_pow_ne k j ne)

pub bit-clr_self : (w x k : ℕ) → k < w → bit (bit_and x (complement w (2 ^ k))) k ≡ 0
bit-clr_self w x k h =
    omega
      (arith, bit-bit_and x (complement w (2 ^ k)) k, bit-complement w (2 ^ k) k h, bit_pow_self k)

pub bit-clr_ne : (w x k j : ℕ) → j < w → k ≢ j → bit (bit_and x (complement w (2 ^ k))) j ≡ bit x j
bit-clr_ne w x k j h ne = omega (
  arith,
  bit-bit_and x (complement w (2 ^ k)) j,
  bit-complement w (2 ^ k) j h,
  bit_pow_ne k j ne,
  bit-le x j,
)

-- `word & mask` is nonzero exactly when the bit is set.
pub test_pow : (x k : ℕ) → ((bit_and x (2 ^ k) == 0) ≡ not (bit x k == 1))
test_pow x k = go (bit x k) (bit-le x k) (bit_and_pow x k)
  where
    go : (b : ℕ) → b ≤ 1 → bit_and x (2 ^ k) ≡ b * 2 ^ k → ((bit_and x (2 ^ k) == 0) ≡ not (b == 1))
    go zero h e = ground arith
    go (suc zero) h e = ground (arith, pow_pos k)
    go (suc (suc b)) h e = absurd (omega arith)

-- A word with every bit set.
pub bit_ones : (w j : ℕ) → j < w → bit (2 ^ w - 1) j ≡ 1
bit_ones w j h =
    let e : 2 ^ w - 1 ≡ complement w 0 = omega (arith, mod-eq_of_lt (pow_pos w)) in
    ap (λ t. bit t j) e ∙ bit-complement w 0 j h ∙ ap (λ t. 1 - t) (bit_zero j)

pub bit_shift : (x a j : ℕ) → bit x (a + j) ≡ bit (x / 2 ^ a) j
unfolding bit
bit_shift x zero j =
    let none : x / 1 ≡ x = omega arith in let same : 0 + j ≡ j = omega arith in rw (none, same)
bit_shift x (suc a) j =
    let next : suc a + j ≡ suc (a + j) = omega arith in
    let halves : x / 2 ^ suc a ≡ x / 2 / 2 ^ a =
      ap (λ t. x / t) (let twice : 2 ^ suc a ≡ 2 * 2 ^ a = omega (arith, pow-suc 2 a) in twice)
      ∙ sym (div-div-eq-div-mul x 2 (2 ^ a)) in
    rw (next, halves) (bit_shift (x / 2) a j)

pub bit_mod : (w x j : ℕ) → j < w → bit (x % 2 ^ w) j ≡ bit x j
unfolding bit
bit_mod zero x j h = elim h [ ]
bit_mod (suc w) x zero h = omega (arith, mod_pow_suc w x)
bit_mod (suc w) x (suc j) h =
    let half : x % 2 ^ suc w / 2 ≡ x / 2 % 2 ^ w = omega (arith, mod_pow_suc w x) in
    rw half (bit_mod w (x / 2) j (omega arith))
