-- ===== src/Small/Division.antt =====
-- The three ways of the division agree with division.
use exfat.Prelude.{
  ℕ, zero, suc, ◌+◌, ◌-◌, ◌*◌, ◌/◌, ◌%◌, ◌^◌, ◌<◌, ◌≡◌, refl, sym, ap, subst, ◌∙◌, bit_and, bit_or,
  true, false, some, ◌==◌, leb, leb→le, if◌then◌else◌, ◌&&◌, arith, ==→eq, ==→ne, Bool-cases, inl,
  inr, ◌⊎◌,
}
use exfat.Prelude.Bits.{bit_and_step, pow_pos}
use exfat.Prelude.Fields.{pow_add, bit_or_field, bit_and_low}
use native.Mathlib.Nat.{
  pow-suc, div-le_self, div-div-eq-div-mul, add-mul-div_left, add-mul-mod_self_left, div-eq_of_lt,
  mod-eq_of_lt,
}
use exfat.Small.{shift_from, divide_step, divide_from, shifted_by, udivmod64}

bit_and_self : (k d : ℕ) → d < 2 ^ k → bit_and d d ≡ d
bit_and_self zero zero h = refl
bit_and_self zero (suc d) h = absurd (omega arith)
bit_and_self (suc k) d h =
    omega (arith, bit_and_step d d, bit_and_self k (d / 2) (omega (arith, pow-suc 2 k)))

-- A number with no bit in common with the one below is a power of two.
power_lem :
    (k d : ℕ) → 0 < d → d < 2 ^ k → bit_and d (d - 1) ≡ 0 → (s : ℕ) × ((s < k) × (d ≡ 2 ^ s))
power_lem zero d pos small h = absurd (omega arith)
power_lem (suc k) d pos small h = elim (Bool-cases (d % 2 == 0)) [
  | inl e ↦
      let even : d % 2 ≡ 0 = ==→eq (d % 2) 0 e in
      let half : (d - 1) / 2 ≡ d / 2 - 1 = omega arith in
      let rest =
        power_lem k (d / 2) (omega arith) (omega (arith, pow-suc 2 k))
          (omega (arith, bit_and_step d (d - 1), ap (bit_and (d / 2)) half)) in
      (suc (rest.0), (omega (arith, rest.1.0), omega (arith, rest.1.1, pow-suc 2 (rest.0))))
  | inr e ↦
      let odd = ==→ne (d % 2) 0 e in
      let half : (d - 1) / 2 ≡ d / 2 = omega (arith, odd) in
      (
        0,
        (
          omega arith,
          omega (
            arith,
            odd,
            bit_and_step d (d - 1),
            ap (bit_and (d / 2)) half,
            bit_and_self k (d / 2) (omega (arith, pow-suc 2 k)),
          ),
        ),
      )
]

-- What the loop keeps: `q` and `r` are the quotient and the remainder of the bits from `i` on.
IsDivided : ℕ → ℕ → ℕ → ℕ → ℕ → Type 0
IsDivided n d i r q =
    (quotient : ℕ) × ((n / 2 ^ i ≡ quotient * d + r) × ((q ≡ quotient * 2 ^ i) × (r < d)))

quotient_lem : (n d q r : ℕ) → n ≡ q * d + r → r < d → (q ≡ n / d) × (r ≡ n % d)
quotient_lem n d q r e small =
    let swapped : n ≡ r + d * q = omega (arith, e) in
    (
      omega (
        arith,
        ap (λ x. x / d) swapped,
        add-mul-div_left r q (let p : 0 < d = omega arith in p),
        div-eq_of_lt small,
      ),
      omega (arith, ap (λ x. x % d) swapped, add-mul-mod_self_left r d q, mod-eq_of_lt small),
    )

shifted_lem :
    (n i r : ℕ)
    → r * 2 < 2 ^ 64
    → bit_or (r * 2 % 2 ^ 64) (bit_and (n / 2 ^ i) 1) ≡ r * 2 + n / 2 ^ i % 2
shifted_lem n i r h =
    rw (mod-eq_of_lt h, bit_and_low 1 (n / 2 ^ i)) (bit_or_field 1 r (n / 2 ^ i % 2) (omega arith))

next_bit : (n i : ℕ) → n / 2 ^ i ≡ n / 2 ^ suc i * 2 + n / 2 ^ i % 2
next_bit n i = omega (arith, div-div-eq-div-mul n (2 ^ i) 2, ap (λ x. n / x) (pow-suc 2 i))

choice_lem :
    (n d i r q quotient : ℕ)
    → n / 2 ^ i ≡ quotient * 2 * d + r
    → q ≡ quotient * 2 ^ suc i
    → r < d * 2
    → (next : ℕ × ℕ) → next ≡ (if leb d r then (r - d, bit_or q (2 ^ i)) else (r, q))
    → IsDivided n d i (next.0) (next.1)
unfolding IsDivided
choice_lem n d i r q quotient sum top small next e = elim (Bool-cases (leb d r)) [
  | inl more ↦
      let big = leb→le d r more in
      let raised : bit_or q (2 ^ i) ≡ (quotient * 2 + 1) * 2 ^ i =
        ap (λ x. bit_or x (2 ^ i)) top
        ∙ bit_or_field (suc i) quotient (2 ^ i) (omega (arith, pow-suc 2 i, pow_pos i))
        ∙ omega (arith, ap (λ x. quotient * x) (pow-suc 2 i)) in
      rw (e, more) (quotient * 2 + 1, (omega (arith, big), (raised, omega (arith, big))))
  | inr less ↦
      let few : r < d = ground (arith, less) in
      rw (e, less)
        (quotient * 2, (sum, (omega (arith, top, ap (λ x. quotient * x) (pow-suc 2 i)), few)))
]

divide_step-IsDivided :
    (n d i r q : ℕ)
    → n < 2 ^ 64
    → IsDivided n d (suc i) r q
    → IsDivided n d i ((divide_step n d i r q).0) ((divide_step n d i r q).1)
unfolding divide_step IsDivided
divide_step-IsDivided n d i r q wide (quotient, (sum, (top, small))) =
    let bits = shifted_lem n i r (omega (arith, sum, next_bit n i, div-le_self n (2 ^ i))) in
    choice_lem n d i (r * 2 + n / 2 ^ i % 2) q quotient (omega (arith, next_bit n i, sum)) top
      (omega arith) (divide_step n d i r q) (rw bits refl)

divide_from-div_mod :
    (n d i r q : ℕ) → n < 2 ^ 64 → IsDivided n d i r q → divide_from i n d r q ≡ (n / d, n % d)
unfolding divide_from IsDivided
divide_from-div_mod n d zero r q wide h =
    let whole : n / 2 ^ 0 ≡ n = (let e : n / 1 ≡ n = omega arith in e) in
    let both =
      quotient_lem n d q r (omega (arith, h.1.0, whole, ap (λ x. x * d) (h.1.1.0))) (h.1.1.1) in
    rw (both.0, both.1) refl
divide_from-div_mod n d (suc i) r q wide h =
    let next = divide_step n d i r q in
    divide_from-div_mod n d i (next.0) (next.1) wide (divide_step-IsDivided n d i r q wide h)

shift_lem : (j m : ℕ) → 2 ^ (j + m) / 2 ^ j ≡ 2 ^ m
shift_lem j m =
    let sum : 2 ^ (j + m) ≡ 0 + 2 ^ j * 2 ^ m = omega (arith, pow_add j m) in
    omega (
      arith,
      ap (λ x. x / 2 ^ j) sum,
      add-mul-div_left 0 (2 ^ m) (pow_pos j),
      div-eq_of_lt (pow_pos j),
    )

-- The shift of a power of two is found.
shift_from-some : (fuel j m : ℕ) → m < fuel → shift_from fuel j (2 ^ (j + m)) ≡ some (j + m)
unfolding shift_from
shift_from-some zero j m h = absurd (omega arith)
shift_from-some (suc fuel) j zero h =
    let one : (2 ^ (j + 0) / 2 ^ j == 1) ≡ true = rw (shift_lem j 0) refl in
    let same : j + 0 ≡ j = omega arith in rw one (rw same refl)
shift_from-some (suc fuel) j (suc m) h =
    let more : (2 ^ (j + suc m) / 2 ^ j == 1) ≡ false =
      rw (shift_lem j (suc m)) (ground (arith, pow-suc 2 m, pow_pos m)) in
    let same : j + suc m ≡ suc j + m = omega arith in
    rw more (rw same (shift_from-some fuel (suc j) m (omega arith)))

power_of_two :
    (n d : ℕ)
    → 0 < d
    → d < 2 ^ 64
    → bit_and d (d - 1) ≡ 0
    → shifted_by n d (shift_from 64 0 d) ≡ some (n / d, n % d)
unfolding shifted_by
power_of_two n d pos small h =
    let power = power_lem 64 d pos small h in
    let s = power.0 in
    let same : 0 + s ≡ s = omega arith in
    let found : shift_from 64 0 d ≡ some s =
      subst (λ t. shift_from 64 0 d ≡ some t) same
        (ap (shift_from 64 0) (power.1.1 ∙ ap (λ t. 2 ^ t) (sym same))
          ∙ shift_from-some 64 0 s (power.1.0)) in
    let low : bit_and n (d - 1) ≡ n % d =
      subst (λ t. bit_and n (t - 1) ≡ n % t) (sym (power.1.1)) (bit_and_low s n) in
    let high : n / 2 ^ s ≡ n / d = ap (λ t. n / t) (sym (power.1.1)) in rw (found, low, high) refl

long_lem : (n d : ℕ) → n < 2 ^ 64 → 0 < d → divide_from 64 n d 0 0 ≡ (n / d, n % d)
unfolding IsDivided
long_lem n d wide pos = divide_from-div_mod n d 64 0 0 wide (0, (omega arith, (omega arith, pos)))

-- The division of 64-bit numbers ends and gives the quotient and the remainder, whichever of its three
-- ways it takes; a divisor of 0 gives 0 and 0.
pub udivmod64-div_mod :
    (n d : ℕ)
    → n < 2 ^ 64
    → d < 2 ^ 64
    → ((d ≡ 0) × (udivmod64 n d ≡ some (0, 0))) ⊎ ((0 < d) × (udivmod64 n d ≡ some (n / d, n % d)))
unfolding udivmod64
udivmod64-div_mod n d wide small = elim (Bool-cases (d == 0)) [
  | inl zeroed ↦ inl (==→eq d 0 zeroed, rw zeroed refl)
  | inr e ↦
      let pos : 0 < d = omega (arith, ==→ne d 0 e) in
      inr (
        pos,
        elim (Bool-cases (bit_and d (d - 1) == 0)) [
          | inl power ↦
              rw (e, power) (power_of_two n d pos small (==→eq (bit_and d (d - 1)) 0 power))
          | inr other ↦ elim (Bool-cases ((n / 2 ^ 32 == 0) && (d / 2 ^ 32 == 0))) [
            | inl narrow ↦
                let n_whole : n % 2 ^ 32 ≡ n = ground (arith, narrow) in
                let d_whole : d % 2 ^ 32 ≡ d = ground (arith, narrow) in
                rw (e, other, narrow, n_whole, d_whole) refl
            | inr long ↦ rw (e, other, long) (ap some (long_lem n d wide pos))
          ]
        ],
      )
]
