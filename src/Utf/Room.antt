-- ===== src/Utf/Room.antt =====
-- A buffer of three bytes for each unit and one more, as `EXFAT_UTF8_NAME_BUFFER_MAX` is, holds
-- every name that can be converted at all.
use exfat.Prelude.{
  ℕ, zero, suc, ◌+◌, ◌-◌, ◌*◌, ◌%◌, ◌≤◌, ◌<◌, ◌≡◌, ◌≢◌, refl, ◌⊎◌, inl, inr, false, Option, none,
  some, List, [], ◌∷◌, ◌==◌, length, arith, Bool-cases,
}
use exfat.Prelude.Fields.{bit_or_field, bit_and_low}
use exfat.Utf.{
  Converted, done, illegal, too_long, out_of_fuel, prepend, terminate, after_char, utf16_to_wchar,
  wchar_to_utf8, utf16_loop, utf16_to_utf8,
}

abbrev pub IsUnits : List ℕ → Type 0
IsUnits [] = Unit
IsUnits (u ∷ us) = (u < 0x10000) × IsUnits us

-- A character of one unit, or of two.
abbrev Step : ℕ → List ℕ → List ℕ → Type 0
Step wc rest input =
    IsUnits rest
    × (((wc < 0x10000) × (length input ≡ length rest + 1))
        ⊎ ((wc < 0x110000) × (length input ≡ length rest + 2)))

utf16_to_wchar-Step :
    (u : ℕ) (input : List ℕ) (wc : ℕ) (rest : List ℕ)
    → IsUnits (u ∷ input)
    → utf16_to_wchar (u ∷ input) ≡ some (wc, rest)
    → Step wc rest (u ∷ input)
unfolding utf16_to_wchar
utf16_to_wchar-Step u [] wc rest t h = ground arith
utf16_to_wchar-Step u (low ∷ input) wc rest t h =
    ground (arith, bit_and_low 10 u, bit_and_low 10 low, bit_or_field 10 (u % 1024) (low % 1024))

wchar_to_utf8-ne-none :
    (wc room : ℕ)
    → ((wc < 0x10000) × (3 ≤ room)) ⊎ ((wc < 0x110000) × (4 ≤ room))
    → wchar_to_utf8 wc room ≢ none
unfolding wchar_to_utf8
wchar_to_utf8-ne-none wc room fits = ground arith

length-wchar_to_utf8 :
    (wc room : ℕ) (bytes : List ℕ)
    → wc < 0x110000
    → wchar_to_utf8 wc room ≡ some bytes
    → (length bytes ≤ 4) × (wc < 0x10000 → length bytes ≤ 3)
unfolding wchar_to_utf8
length-wchar_to_utf8 wc room bytes small h = (ground arith, λ short. ground arith)

-- The conversion ends in the buffer, or stops at an illegal sequence.
abbrev pub Ends : Converted → Type 0
Ends (done out) = Unit {0}
Ends illegal = Unit {0}
Ends too_long = ⊥
Ends out_of_fuel = ⊥

Ends-prepend : (bytes : List ℕ) (c : Converted) → Ends c → Ends (prepend bytes c)
unfolding prepend
Ends-prepend bytes (done out) h = tt
Ends-prepend bytes illegal h = tt
Ends-prepend bytes too_long h = h
Ends-prepend bytes out_of_fuel h = h

Ends-after_char :
    (u wc room : ℕ) (rest input : List ℕ) (loop : ℕ → Converted)
    → Step wc rest (u ∷ input)
    → 3 * length (u ∷ input) < room
    → ((n : ℕ) → n + 3 * length rest < room → Ends (loop n))
    → Ends (after_char wc (wchar_to_utf8 wc room) loop)
unfolding after_char
Ends-after_char u wc room rest input loop step fits ih = go (wchar_to_utf8 wc room) refl
  where
    go : (w : Option (List ℕ)) → wchar_to_utf8 wc room ≡ w → Ends (after_char wc w loop)
    go none e = absurd (wchar_to_utf8-ne-none wc room (ground arith) e)
    go (some bytes) e = elim (Bool-cases (wc == 0)) [
      | inl nul ↦ rw nul tt
      | inr more ↦
          let size = length-wchar_to_utf8 wc room bytes (omega (arith, step.1)) e in
          rw more (Ends-prepend bytes _ (ih (length bytes) (ground arith)))
    ]

utf16_loop-Ends :
    (fuel room : ℕ) (input : List ℕ)
    → length input ≤ fuel
    → 3 * length input < room
    → IsUnits input
    → Ends (utf16_loop fuel input room)
unfolding utf16_loop terminate
utf16_loop-Ends zero room [] f fits t = let left : (room == 0) ≡ false = ground arith in rw left tt
utf16_loop-Ends zero room (u ∷ input) f fits t = absurd (omega arith)
utf16_loop-Ends (suc fuel) room [] f fits t =
    let left : (room == 0) ≡ false = ground arith in rw left tt
utf16_loop-Ends (suc fuel) room (u ∷ input) f fits t =
    go (utf16_to_wchar (u ∷ input)) refl (λ rest n. utf16_loop-Ends fuel (room - n) rest)
  where
    go :
        (o : Option (ℕ × List ℕ))
        → utf16_to_wchar (u ∷ input) ≡ o
        → ((rest : List ℕ) (n : ℕ)
            → length rest ≤ fuel
            → 3 * length rest < room - n
            → IsUnits rest
            → Ends (utf16_loop fuel rest (room - n)))
        → Ends (elim o [
          | none ↦ illegal
          | some (wc, rest) ↦
              after_char wc (wchar_to_utf8 wc room) (λ n. utf16_loop fuel rest (room - n))
        ])
    go none e ih = tt
    go (some (wc, rest)) e ih =
        let step = utf16_to_wchar-Step u input wc rest t e in
        Ends-after_char u wc room rest input _ step fits
          λ n h. ih rest n (omega (arith, step.1)) (omega arith) step.0

-- For 16-bit units, with three bytes of room for each and one for the NUL, `utf16_to_utf8` ends with
-- a text or with the report of an invalid name: never with a name too long, nor out of fuel.
pub utf16_to_utf8-Ends :
    (input : List ℕ) (outsize : ℕ)
    → IsUnits input
    → 3 * length input < outsize
    → Ends (utf16_to_utf8 input outsize)
unfolding utf16_to_utf8
utf16_to_utf8-Ends input outsize t fits =
    utf16_loop-Ends (length input) outsize input (omega arith) fits t
