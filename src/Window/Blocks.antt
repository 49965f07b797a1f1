-- ===== src/Window/Blocks.antt =====
-- Whole blocks: their sums, how many a number has, and the chunks of a transfer.
use exfat.Prelude.{
  ℕ, ◌+◌, ◌-◌, ◌*◌, ◌/◌, ◌%◌, ◌^◌, ◌<◌, ◌≤◌, ◌≡◌, refl, sym, ap, subst, ◌∙◌, inl, inr, true, false,
  not, ◌&&◌, bit_and, ◌==◌, ltb, ltb→lt, arith, Bool-cases,
}
use exfat.Prelude.Bits.{pow_pos, bit_and-zero}
use exfat.Prelude.Fields.{bit_and_low, bit_and_whole}
use native.Mathlib.Nat.{
  mod-lt, mod_self, mod-eq_of_lt, mul-mod_left, div-add-mod, add-mul-mod_self_left,
}
use exfat.Window.{Window, whole_blocks, chunk_of, is_refused}

-- Sums and differences of whole blocks.
pub whole_add : (b x y : ℕ) → x % b ≡ 0 → y % b ≡ 0 → (x + y) % b ≡ 0
whole_add b x y hx hy =
    let split : x + y ≡ x + b * (y / b) = omega (arith, div-add-mod y b, hy) in
    ap (λ t. t % b) split ∙ add-mul-mod_self_left x b (y / b) ∙ hx

pub whole_sub : (b x y : ℕ) → y ≤ x → x % b ≡ 0 → y % b ≡ 0 → (x - y) % b ≡ 0
whole_sub b x y h hx hy =
    let split : x ≡ x - y + b * (y / b) = omega (arith, div-add-mod y b, hy) in
    sym (add-mul-mod_self_left (x - y) b (y / b)) ∙ ap (λ t. t % b) (sym split) ∙ hx

pub at_least : (b x : ℕ) → 0 < x → x % b ≡ 0 → b ≤ x
at_least b x positive whole = elim (Bool-cases (ltb x b)) [
  | inl less ↦ absurd (omega (arith, mod-eq_of_lt (ltb→lt x b less), whole))
  | inr more ↦ ground (arith, more)
]

-- A block size of a power of two, and sizes of 32 bits.
pub record IsWindow (w : Window) (k : ℕ) : Type 0 where
  pub bits : w.blocksize ≡ 2 ^ k
  pub small : k < 32
  pub transfer : w.maxtransfer < 2 ^ 32

module _ (w : Window) (k : ℕ) (is : IsWindow w k) where
  pub block_pos : 0 < w.blocksize
  block_pos = omega (arith, is.bits, pow_pos k)

  whole_lem : (x : ℕ) → x < 2 ^ 32 → whole_blocks w x ≡ x / w.blocksize * w.blocksize
  whole_lem x h =
      subst (λ b. bit_and x (2 ^ 32 - b) ≡ x / b * b) (sym is.bits)
        (bit_and_whole 32 k x (omega (arith, is.small)) h)

  pub head_lem : (x : ℕ) → bit_and x (w.blocksize - 1) ≡ x % w.blocksize
  head_lem x = subst (λ b. bit_and x (b - 1) ≡ x % b) (sym is.bits) (bit_and_low k x)

  -- The blocks of `x`, and what is left of it.
  abbrev pub IsWhole : ℕ → ℕ → Type 0
  IsWhole x n = (n % w.blocksize ≡ 0) × ((n ≤ x) × (x - n < w.blocksize))

  pub whole_blocks-IsWhole : (x : ℕ) → x < 2 ^ 32 → IsWhole x (whole_blocks w x)
  whole_blocks-IsWhole x h =
      let e = whole_lem x h in
      let q = x / w.blocksize in
      (
        ap (λ t. t % w.blocksize) e ∙ mul-mod_left q (w.blocksize),
        (
          omega (arith, e, div-add-mod x (w.blocksize)),
          omega (arith, e, div-add-mod x (w.blocksize), mod-lt x block_pos),
        ),
      )

  abbrev pub IsChunk : ℕ → ℕ → Type 0
  IsChunk len n = (n % w.blocksize ≡ 0) × ((n ≤ len) × (0 < n))

  pub chunk_of-IsChunk : (len : ℕ) → 0 < len → len % w.blocksize ≡ 0 → IsChunk len (chunk_of w len)
  unfolding chunk_of
  chunk_of-IsChunk len positive whole =
      let least = at_least (w.blocksize) len positive whole in
      elim (Bool-cases (not (w.maxtransfer == 0) && ltb w.maxtransfer len)) [
        | inl limited ↦
            let blocks = whole_blocks-IsWhole (w.maxtransfer) is.transfer in
            elim (Bool-cases (whole_blocks w (w.maxtransfer) == 0)) [
              | inl empty ↦ rw (limited, empty) (mod_self (w.blocksize), (least, block_pos))
              | inr some_blocks ↦
                  rw (limited, some_blocks)
                    (blocks.0, (ground (arith, blocks.1.0, limited), ground (arith, some_blocks)))
            ]
        | inr unlimited ↦
            let some_bytes : (len == 0) ≡ false = ground (arith, positive) in
            rw (unlimited, some_bytes) (whole, (omega arith, positive))
      ]

-- A mask that refuses no address.
abbrev pub IsOpen : Window → Type 0
IsOpen w = w.mask ≡ 2 ^ 32 - 1

pub refused_lem : (w : Window) (address : ℕ) → is_refused w address ≡ true → IsOpen w → ⊥
refused_lem w address refused opened =
    let none : 2 ^ 32 - 1 - w.mask ≡ 0 = omega (arith, opened) in
    let accepted : is_refused w address ≡ false = rw (none, bit_and-zero address) refl in
    absurd (ground (arith, refused, accepted))
