-- ===== src/Small.antt =====
-- The division of 64-bit numbers of amiga/small.c. A quotient and a remainder are a pair; `none` is the
-- loop that looks for the shift and does not end within the 64 bits of a word.
pub mod Division
mod Examples
use exfat.Prelude.{
  ℕ, zero, suc, ◌+◌, ◌-◌, ◌*◌, ◌/◌, ◌%◌, ◌^◌, bit_and, bit_or, Bool, true, false, Option, none,
  some, ◌==◌, leb, ◌&&◌, if◌then◌else◌,
}

-- `while ((d >> shift) != 1) shift++`.
unfoldable pub shift_from : ℕ → ℕ → ℕ → Option ℕ
shift_from zero shift d = none
shift_from (suc n) shift d =
    let rest = shift_from n (suc shift) d in if d / 2 ^ shift == 1 then some shift else rest

-- The remainder and the quotient after the bit `i`.
unfoldable pub divide_step : ℕ → ℕ → ℕ → ℕ → ℕ → ℕ × ℕ
divide_step n d i r q =
    let shifted = bit_or (r * 2 % 2 ^ 64) (bit_and (n / 2 ^ i) 1) in
    if leb d shifted then (shifted - d, bit_or q (2 ^ i)) else (shifted, q)

-- The bits from `i - 1` down to 0.
unfoldable pub divide_from : ℕ → ℕ → ℕ → ℕ → ℕ → ℕ × ℕ
unfolding divide_step
divide_from zero n d r q = (q, r)
divide_from (suc i) n d r q =
    let next = divide_step n d i r q in divide_from i n d (next.0) (next.1)

unfoldable pub shifted_by : ℕ → ℕ → Option ℕ → Option (ℕ × ℕ)
shifted_by n d none = none
shifted_by n d (some shift) = some (n / 2 ^ shift, bit_and n (d - 1))

unfoldable pub udivmod64 : ℕ → ℕ → Option (ℕ × ℕ)
unfolding shift_from divide_from shifted_by
udivmod64 n d =
    if d == 0
    then some (0, 0)
    else if bit_and d (d - 1) == 0
    then shifted_by n d (shift_from 64 0 d)
    else if (n / 2 ^ 32 == 0) && (d / 2 ^ 32 == 0)
    then some ((n % 2 ^ 32) / (d % 2 ^ 32), (n % 2 ^ 32) % (d % 2 ^ 32))
    else some (divide_from 64 n d 0 0)
