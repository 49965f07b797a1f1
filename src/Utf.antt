-- ===== src/Utf.antt =====
-- UTF-8 and UTF-16 names: libexfat/utf.c. A string is the list of its units, and a position in a
-- buffer is the room that is left behind it.
pub mod Utf8
pub mod Utf16
pub mod Strings
pub mod Room
pub mod Legal
mod Examples
use exfat.Prelude.{
  ℕ, zero, suc, ◌+◌, ◌-◌, ◌*◌, ◌/◌, ◌^◌, bit_and, bit_or, not, Option, none, some, List, [], ◌∷◌,
  ◌++◌, ◌==◌, ltb, leb, if◌then◌else◌, length,
}

infixl 75 ◌<<<◌ ◌>>>◌
abbrev pub ◌<<<◌ : ℕ → ℕ → ℕ
x <<< k = x * 2 ^ k

abbrev pub ◌>>>◌ : ℕ → ℕ → ℕ
x >>> k = x / 2 ^ k

-- A continuation byte, `0x80 | (x & 0x3f)`.
abbrev tail_byte : ℕ → ℕ
tail_byte x = bit_or 0x80 (bit_and x 0x3f)

-- The bytes for a character, unless `outsize` is too small for them.
unfoldable pub wchar_to_utf8 : ℕ → ℕ → Option (List ℕ)
wchar_to_utf8 wc outsize =
    if leb wc 0x7f
    then (if ltb outsize 1 then none else some (wc ∷ []))
    else if leb wc 0x7ff
    then (if ltb outsize 2 then none else some (bit_or 0xc0 (wc >>> 6) ∷ tail_byte wc ∷ []))
    else if leb wc 0xffff
    then (if ltb outsize 3
        then none
        else some (bit_or 0xe0 (wc >>> 12) ∷ tail_byte (wc >>> 6) ∷ tail_byte wc ∷ []))
    else if leb wc 0x1fffff
    then (if ltb outsize 4
        then none
        else some (
            bit_or 0xf0 (wc >>> 18)
            ∷ tail_byte (wc >>> 12)
            ∷ tail_byte (wc >>> 6)
            ∷ tail_byte wc
            ∷ []))
    else if leb wc 0x3ffffff
    then (if ltb outsize 5
        then none
        else some (
            bit_or 0xf8 (wc >>> 24)
            ∷ tail_byte (wc >>> 18)
            ∷ tail_byte (wc >>> 12)
            ∷ tail_byte (wc >>> 6)
            ∷ tail_byte wc
            ∷ []))
    else if leb wc 0x7fffffff
    then (if ltb outsize 6
        then none
        else some (
            bit_or 0xfc (wc >>> 30)
            ∷ tail_byte (wc >>> 24)
            ∷ tail_byte (wc >>> 18)
            ∷ tail_byte (wc >>> 12)
            ∷ tail_byte (wc >>> 6)
            ∷ tail_byte wc
            ∷ []))
    else none

low_surrogate : ℕ → List ℕ → Option (ℕ × List ℕ)
low_surrogate high [] = none
low_surrogate high (low ∷ rest) =
    if bit_and low 0xfc00 == 0xdc00
    then some (bit_or (bit_and high 0x3ff <<< 10) (bit_and low 0x3ff) + 0x10000, rest)
    else none

-- One character from the front of `insize` units; `none` is NULL.
unfoldable pub utf16_to_wchar : List ℕ → Option (ℕ × List ℕ)
unfolding low_surrogate
utf16_to_wchar [] = none
utf16_to_wchar (unit ∷ rest) =
    if bit_and unit 0xfc00 == 0xd800 then low_surrogate unit rest else some (unit, rest)

-- The result of a conversion: what is written to the output, or the error number.
pub data Converted : Type 0 where
  done : List ℕ → Converted
  illegal too_long out_of_fuel : Converted

prepend : List ℕ → Converted → Converted
prepend bytes (done more) = done (bytes ++ more)
prepend bytes illegal = illegal
prepend bytes too_long = too_long
prepend bytes out_of_fuel = out_of_fuel

terminate : ℕ → Converted
terminate room = if room == 0 then too_long else done (0 ∷ [])

-- What follows in the loop once a character is read and written.
after_char : ℕ → Option (List ℕ) → (ℕ → Converted) → Converted
unfolding prepend
after_char wc none rest = too_long
after_char wc (some bytes) rest =
    let more = prepend bytes (rest (length bytes)) in if wc == 0 then done bytes else more

-- The loop; each round takes at least one unit, so `length input` rounds are enough.
unfoldable pub utf16_loop : ℕ → List ℕ → ℕ → Converted
unfolding terminate after_char wchar_to_utf8 utf16_to_wchar
utf16_loop fuel [] room = terminate room
utf16_loop zero (unit ∷ input) room = out_of_fuel
utf16_loop (suc fuel) (unit ∷ input) room = elim (utf16_to_wchar (unit ∷ input)) [
  | none ↦ illegal
  | some (wc, rest) ↦ after_char wc (wchar_to_utf8 wc room) (λ n. utf16_loop fuel rest (room - n))
]

unfoldable pub utf16_to_utf8 : List ℕ → ℕ → Converted
unfolding utf16_loop
utf16_to_utf8 input outsize = utf16_loop (length input) input outsize

-- The bytes behind the first: `n` of them, the accumulated value being `wc`.
utf8_tail : ℕ → ℕ → List ℕ → Option (ℕ × List ℕ)
utf8_tail zero wc input = some (wc, input)
utf8_tail (suc n) wc [] = none
utf8_tail (suc n) wc (byte ∷ input) =
    if not (bit_and byte 0xc0 == 0x80)
    then none
    else utf8_tail n (bit_or wc (bit_and byte 0x3f <<< (n * 6))) input

-- `insize < size` is tested before any byte behind the first is looked at.
utf8_sized : ℕ → ℕ → List ℕ → Option (ℕ × List ℕ)
unfolding utf8_tail
utf8_sized size wc rest = if ltb (length rest + 1) size then none else utf8_tail (size - 1) wc rest

-- `none` is NULL. The loop never calls this with no input, which would be `exfat_bug`.
unfoldable pub utf8_to_wchar : List ℕ → Option (ℕ × List ℕ)
unfolding utf8_sized
utf8_to_wchar [] = none
utf8_to_wchar (byte ∷ rest) =
    if bit_and byte 0x80 == 0
    then some (byte, rest)
    else if bit_and byte 0xe0 == 0xc0
    then utf8_sized 2 (bit_and byte 0x1f <<< 6) rest
    else if bit_and byte 0xf0 == 0xe0
    then utf8_sized 3 (bit_and byte 0x0f <<< 12) rest
    else if bit_and byte 0xf8 == 0xf0
    then utf8_sized 4 (bit_and byte 0x07 <<< 18) rest
    else if bit_and byte 0xfc == 0xf8
    then utf8_sized 5 (bit_and byte 0x03 <<< 24) rest
    else if bit_and byte 0xfe == 0xfc
    then utf8_sized 6 (bit_and byte 0x01 <<< 30) rest
    else none

-- The units are stored through `cpu_to_le16`, which keeps 16 bits.
unfoldable pub wchar_to_utf16 : ℕ → ℕ → Option (List ℕ)
wchar_to_utf16 wc outsize =
    if leb wc 0xffff
    then (if outsize == 0 then none else some (wc ∷ []))
    else if ltb outsize 2
    then none
    else (let wc' = wc - 0x10000 in
        some (bit_or 0xd800 (bit_and (wc' >>> 10) 0x3ff) ∷ bit_or 0xdc00 (bit_and wc' 0x3ff) ∷ []))

-- A NUL ends the loop, and the terminator is written behind it.
after_unit : ℕ → ℕ → Option (List ℕ) → (ℕ → Converted) → Converted
unfolding prepend terminate
after_unit wc room none rest = too_long
after_unit wc room (some units) rest =
    let more = prepend units (rest (length units)) in
    if wc == 0 then prepend units (terminate (room - length units)) else more

unfoldable pub utf8_loop : ℕ → List ℕ → ℕ → Converted
unfolding terminate after_unit wchar_to_utf16 utf8_to_wchar
utf8_loop fuel [] room = terminate room
utf8_loop zero (byte ∷ input) room = out_of_fuel
utf8_loop (suc fuel) (byte ∷ input) room = elim (utf8_to_wchar (byte ∷ input)) [
  | none ↦ illegal
  | some (wc, rest) ↦
      after_unit wc room (wchar_to_utf16 wc room) (λ n. utf8_loop fuel rest (room - n))
]

unfoldable pub utf8_to_utf16 : List ℕ → ℕ → Converted
unfolding utf8_loop
utf8_to_utf16 input outsize = utf8_loop (length input) input outsize

-- Units before the first NUL; the array has one.
unfoldable pub utf16_length : List ℕ → ℕ
utf16_length [] = 0
utf16_length (unit ∷ rest) = let more = utf16_length rest + 1 in if unit == 0 then 0 else more
