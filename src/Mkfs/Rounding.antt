-- ===== src/Mkfs/Rounding.antt =====
-- `DIV_ROUND_UP` and `ROUND_UP` by their order.
use exfat.Prelude.{ℕ, zero, suc, ◌+◌, ◌-◌, ◌*◌, ◌/◌, ◌≤◌, ◌<◌, ◌≡◌, ◌↔◌, refl, ap, ◌∙◌, arith}
use native.Mathlib.Nat.{div-lt_iff_lt-mul, add-mul-div_right}
use exfat.Bitmap.{div_round_up, round_up}

-- The quotient rounded up is the least that covers `x`.
pub div_round_up-le : (x d k : ℕ) → 0 < d → (div_round_up x d ≤ k) ↔ (x ≤ k * d)
div_round_up-le x d k pos =
    let lt = div-lt_iff_lt-mul {k = d} {x = x + d - 1} {y = k + 1} pos in
    ((λ le. omega (arith, lt.0 (omega arith))), λ le. omega (arith, lt.1 (omega arith)))

pub round_up-le : (x d : ℕ) → 0 < d → x ≤ round_up x d
round_up-le x d pos = (div_round_up-le x d (div_round_up x d) pos).0 (omega arith)

pub round_up-lt : (x d : ℕ) → 0 < d → round_up x d < x + d
round_up-lt x d pos = go (div_round_up x d) refl
  where
    go : (k : ℕ) → div_round_up x d ≡ k → div_round_up x d * d < x + d
    go zero e = omega (arith, ap (λ (k : ℕ). k * d) e)
    go (suc k) e =
        let over : k * d < x = ground (arith, e, (div_round_up-le x d k pos).1) in
        omega (arith, ap (λ (k : ℕ). k * d) e)

-- Whole multiples stay.
pub div_round_up-add_mul : (n x d : ℕ) → 0 < d → div_round_up (n * d + x) d ≡ n + div_round_up x d
div_round_up-add_mul n x d pos =
    ap (λ (t : ℕ). t / d) (omega arith) ∙ add-mul-div_right (x + d - 1) n pos ∙ omega arith

pub div_round_up-mul : (n d : ℕ) → 0 < d → div_round_up (n * d) d ≡ n
div_round_up-mul n d pos =
    let lo = (div_round_up-le (n * d) d n pos).1 (omega arith) in
    let hi : n ≤ div_round_up (n * d) d =
      omega (
        arith,
        div_round_up-add_mul n 0 d pos,
        ap (λ (t : ℕ). div_round_up t d) (n-add-zero n d),
      ) in
    omega arith
  where
    n-add-zero : (n d : ℕ) → n * d + 0 ≡ n * d
    n-add-zero n d = omega arith

-- Rounding up in two steps is rounding up in one.
pub div_round_up-div_round_up :
    (x a b : ℕ)
    → 0 < a
    → 0 < b
    → 0 < a * b
    → div_round_up (div_round_up x a) b ≡ div_round_up x (a * b)
div_round_up-div_round_up x a b ha hb hab =
    let twice = div_round_up (div_round_up x a) b in
    let once = div_round_up x (a * b) in
    let assoc : (k : ℕ) → k * b * a ≡ k * (a * b) = λ k. grind arith in
    let le : twice ≤ once = (div_round_up-le (div_round_up x a) b once hb).1 (
      (div_round_up-le x a (once * b) ha).1
        (omega (arith, assoc once, round_up-le x (a * b) hab))) in
    let ge : once ≤ twice = (div_round_up-le x (a * b) twice hab).1 (
      omega (
        arith,
        assoc twice,
        (div_round_up-le x a (twice * b) ha).0 (round_up-le (div_round_up x a) b hb),
      )) in
    omega arith
