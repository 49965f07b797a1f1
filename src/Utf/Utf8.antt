-- ===== src/Utf/Utf8.antt =====
-- One character: `utf8_to_wchar` reads back what `wchar_to_utf8` writes.
use native.Mathlib.Numerals.{towards_suc}
use exfat.Prelude.{
  ℕ, zero, suc, ◌+◌, ◌-◌, ◌*◌, ◌/◌, ◌%◌, ◌^◌, ◌≤◌, ◌<◌, bit_and, bit_or, ◌≡◌, ap, sym, ◌∙◌, false,
  some, List, ◌∷◌, ◌++◌, ltb, length, arith,
}
use native.Mathlib.Nat.{mul_comm, div-div-eq-div-mul}
use exfat.Prelude.Bits.{pow_pos}
use exfat.Prelude.Fields.{bit_or_field, bit_and_low, bit_and_field}
use exfat.Utf.{tail_byte, wchar_to_utf8, utf8_tail, utf8_sized, utf8_to_wchar}

tail_byte_lem : (x : ℕ) → tail_byte x ≡ 0x80 + x % 64
tail_byte_lem x = ground (arith, bit_and_low 6 x, bit_or_field 6 2 (x % 64))

-- The marks of a tail byte, and its six bits.
tail_mark : (x : ℕ) → bit_and (tail_byte x) 0xc0 ≡ 0x80
tail_mark x = omega (arith, tail_byte_lem x, bit_and_field 6 2 (tail_byte x))

tail_bits : (x : ℕ) → bit_and (tail_byte x) 0x3f ≡ x % 64
tail_bits x = omega (arith, tail_byte_lem x, bit_and_low 6 (tail_byte x))

pow_six : (k : ℕ) → 2 ^ (k + 6) ≡ 64 * 2 ^ k
pow_six k = simp towards_suc (omega arith)

-- A tail byte puts its six bits below those that are read.
tail_step :
    (n q x : ℕ) (input : List ℕ)
    → utf8_tail (suc n) (q * 2 ^ (n * 6 + 6)) (tail_byte x ∷ input)
      ≡ utf8_tail n ((q * 64 + x % 64) * 2 ^ (n * 6)) input
unfolding utf8_tail
tail_step n q x input =
    let fits : x % 64 * 2 ^ (n * 6) < 2 ^ (n * 6 + 6) =
      grind (arith, pow_six (n * 6), pow_pos (n * 6)) in
    let joined : bit_or (q * 2 ^ (n * 6 + 6)) (x % 64 * 2 ^ (n * 6))
        ≡ (q * 64 + x % 64) * 2 ^ (n * 6) =
      bit_or_field (n * 6 + 6) q (x % 64 * 2 ^ (n * 6)) fits
      ∙ omega (arith, ap (λ (t : ℕ). q * t) (pow_six (n * 6))) in
    rw (tail_mark x, tail_bits x, joined)

-- Where the value so far is what lies above the six bits of `y`, `y` is the value behind them.
tail_next :
    (n y : ℕ) (input : List ℕ)
    → utf8_tail (suc n) (y / 64 * 2 ^ (n * 6 + 6)) (tail_byte y ∷ input)
      ≡ utf8_tail n (y * 2 ^ (n * 6)) input
tail_next n y input =
    let whole : y / 64 * 64 + y % 64 ≡ y = omega arith in
    tail_step n (y / 64) y input ∙ ap (λ t. utf8_tail n (t * 2 ^ (n * 6)) input) whole

-- The `n` tail bytes of a character.
abbrev tails : ℕ → ℕ → List ℕ → List ℕ
tails zero x rest = rest
tails (suc n) x rest = tail_byte (x / 2 ^ (n * 6)) ∷ tails n x rest

utf8_tail-tails :
    (n x : ℕ) (rest : List ℕ)
    → utf8_tail n (x / 2 ^ (n * 6) * 2 ^ (n * 6)) (tails n x rest) ≡ some (x, rest)
utf8_tail-tails zero x rest =
    unfold utf8_tail in (let whole : x / 1 * 1 ≡ x = omega arith in ap (λ t. some (t, rest)) whole)
utf8_tail-tails (suc n) x rest =
    let more : suc n * 6 ≡ n * 6 + 6 = omega arith in
    let above : x / 2 ^ (n * 6 + 6) ≡ x / 2 ^ (n * 6) / 64 =
      ap (λ t. x / t) (pow_six (n * 6) ∙ mul_comm 64 (2 ^ (n * 6)))
      ∙ sym (div-div-eq-div-mul x (2 ^ (n * 6)) 64) in
    rw (more, above) (tail_next n (x / 2 ^ (n * 6)) (tails n x rest) ∙ utf8_tail-tails n x rest)

length-tails : (n x : ℕ) (rest : List ℕ) → length (tails n x rest) ≡ n + length rest
length-tails zero x rest = omega arith
length-tails (suc n) x rest = omega (arith, length-tails n x rest)

sized-tails :
    (n wc x : ℕ) (rest : List ℕ)
    → wc ≡ x / 2 ^ (n * 6) * 2 ^ (n * 6)
    → utf8_sized (suc n) wc (tails n x rest) ≡ some (x, rest)
unfolding utf8_sized
sized-tails n wc x rest at =
    let long : ltb (length (tails n x rest) + 1) (suc n) ≡ false =
      ground (arith, length-tails n x rest) in
    let count : suc n - 1 ≡ n = omega arith in rw (long, count, at) (utf8_tail-tails n x rest)

-- The first byte tells the size.
module _ (b : ℕ) (rest : List ℕ) where
  lead1 : b < 0x80 → utf8_to_wchar (b ∷ rest) ≡ some (b, rest)
  unfolding utf8_to_wchar
  lead1 h = ground (arith, bit_and_field 7 1 b)

  lead2 : 0xc0 ≤ b → b < 0xe0 → utf8_to_wchar (b ∷ rest) ≡ utf8_sized 2 ((b - 0xc0) * 2 ^ 6) rest
  unfolding utf8_to_wchar
  lead2 lo hi = ground (arith, bit_and_field 7 1 b, bit_and_field 5 3 b, bit_and_low 5 b)

  lead3 : 0xe0 ≤ b → b < 0xf0 → utf8_to_wchar (b ∷ rest) ≡ utf8_sized 3 ((b - 0xe0) * 2 ^ 12) rest
  unfolding utf8_to_wchar
  lead3 lo hi =
      ground (arith, bit_and_field 7 1 b, bit_and_field 5 3 b, bit_and_field 4 4 b, bit_and_low 4 b)

  lead4 : 0xf0 ≤ b → b < 0xf8 → utf8_to_wchar (b ∷ rest) ≡ utf8_sized 4 ((b - 0xf0) * 2 ^ 18) rest
  unfolding utf8_to_wchar
  lead4 lo hi = ground (
    arith,
    bit_and_field 7 1 b,
    bit_and_field 5 3 b,
    bit_and_field 4 4 b,
    bit_and_field 3 5 b,
    bit_and_low 3 b,
  )

  lead5 : 0xf8 ≤ b → b < 0xfc → utf8_to_wchar (b ∷ rest) ≡ utf8_sized 5 ((b - 0xf8) * 2 ^ 24) rest
  unfolding utf8_to_wchar
  lead5 lo hi = ground (
    arith,
    bit_and_field 7 1 b,
    bit_and_field 5 3 b,
    bit_and_field 4 4 b,
    bit_and_field 3 5 b,
    bit_and_field 2 6 b,
    bit_and_low 2 b,
  )

  lead6 : 0xfc ≤ b → b < 0xfe → utf8_to_wchar (b ∷ rest) ≡ utf8_sized 6 ((b - 0xfc) * 2 ^ 30) rest
  unfolding utf8_to_wchar
  lead6 lo hi = ground (
    arith,
    bit_and_field 7 1 b,
    bit_and_field 5 3 b,
    bit_and_field 4 4 b,
    bit_and_field 3 5 b,
    bit_and_field 2 6 b,
    bit_and_field 1 7 b,
    bit_and_low 1 b,
  )

-- The characters of each size.
module _ (x : ℕ) (rest : List ℕ) where
  read2 : x < 0x800 → utf8_to_wchar (bit_or 0xc0 (x / 2 ^ 6) ∷ tails 1 x rest) ≡ some (x, rest)
  read2 h = rw (bit_or_field 5 6 (x / 2 ^ 6) (omega arith)) (
      lead2 (0xc0 + x / 2 ^ 6) _ (omega arith) (omega arith)
      ∙ sized-tails 1 ((0xc0 + x / 2 ^ 6 - 0xc0) * 2 ^ 6) x rest (omega arith))

  read3 : x < 0x10000 → utf8_to_wchar (bit_or 0xe0 (x / 2 ^ 12) ∷ tails 2 x rest) ≡ some (x, rest)
  read3 h = rw (bit_or_field 4 14 (x / 2 ^ 12) (omega arith)) (
      lead3 (0xe0 + x / 2 ^ 12) _ (omega arith) (omega arith)
      ∙ sized-tails 2 ((0xe0 + x / 2 ^ 12 - 0xe0) * 2 ^ 12) x rest (omega arith))

  read4 : x < 0x200000 → utf8_to_wchar (bit_or 0xf0 (x / 2 ^ 18) ∷ tails 3 x rest) ≡ some (x, rest)
  read4 h = rw (bit_or_field 3 30 (x / 2 ^ 18) (omega arith)) (
      lead4 (0xf0 + x / 2 ^ 18) _ (omega arith) (omega arith)
      ∙ sized-tails 3 ((0xf0 + x / 2 ^ 18 - 0xf0) * 2 ^ 18) x rest (omega arith))

  read5 : x < 0x4000000 → utf8_to_wchar (bit_or 0xf8 (x / 2 ^ 24) ∷ tails 4 x rest) ≡ some (x, rest)
  read5 h = rw (bit_or_field 2 62 (x / 2 ^ 24) (omega arith)) (
      lead5 (0xf8 + x / 2 ^ 24) _ (omega arith) (omega arith)
      ∙ sized-tails 4 ((0xf8 + x / 2 ^ 24 - 0xf8) * 2 ^ 24) x rest (omega arith))

  read6 :
      x < 0x80000000 → utf8_to_wchar (bit_or 0xfc (x / 2 ^ 30) ∷ tails 5 x rest) ≡ some (x, rest)
  read6 h = rw (bit_or_field 1 126 (x / 2 ^ 30) (omega arith)) (
      lead6 (0xfc + x / 2 ^ 30) _ (omega arith) (omega arith)
      ∙ sized-tails 5 ((0xfc + x / 2 ^ 30 - 0xfc) * 2 ^ 30) x rest (omega arith))

-- When a character is written as bytes, these bytes are read back as that character whatever follows
-- them, and they are at least one and no more than the room.
pub utf8_to_wchar-wchar_to_utf8 :
    (wc room : ℕ) (bytes rest : List ℕ)
    → wchar_to_utf8 wc room ≡ some bytes
    → (utf8_to_wchar (bytes ++ rest) ≡ some (wc, rest)) × (length bytes ≤ room) × (1 ≤ length bytes)
unfolding wchar_to_utf8
utf8_to_wchar-wchar_to_utf8 wc room bytes rest h = (
  let one : wc / 1 ≡ wc = omega arith in
      ground (
        arith,
        lead1 wc rest,
        rw one at (read2 wc rest),
        rw one at (read3 wc rest),
        rw one at (read4 wc rest),
        rw one at (read5 wc rest),
        rw one at (read6 wc rest),
      ),
  ground arith,
  ground arith,
)
