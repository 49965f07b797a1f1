-- ===== src/Utf/Legal.antt =====
-- Names whose surrogates are paired are converted.
use exfat.Prelude.{
  ℕ, zero, suc, ◌*◌, ◌-◌, ◌<◌, ◌≡◌, refl, subst, bit_and, bit_or, ◌+◌, true, false, Bool, Option,
  none, some, List, [], ◌∷◌, ◌==◌, length, ==→ne, Bool-cases, inl, inr,
}
use exfat.Utf.{
  ◌<<<◌, Converted, done, illegal, too_long, out_of_fuel, prepend, terminate, after_char,
  wchar_to_utf8, low_surrogate, utf16_to_wchar, utf16_loop, utf16_to_utf8,
}
use exfat.Utf.Room.{IsUnits, Ends, utf16_to_utf8-Ends}

abbrev pub is_lead : ℕ → Bool
is_lead unit = bit_and unit 0xfc00 == 0xd800

abbrev pub is_trail : ℕ → Bool
is_trail unit = bit_and unit 0xfc00 == 0xdc00

-- Up to the NUL, each leading surrogate is followed by a trailing one.
pub data IsPaired : List ℕ → Type 0 where
  ended : IsPaired []
  nul : (rest : List ℕ) → IsPaired (0 ∷ rest)
  pair :
      {high low : ℕ} {rest : List ℕ}
      → is_lead high ≡ true
      → is_trail low ≡ true
      → IsPaired rest
      → IsPaired (high ∷ low ∷ rest)
  single :
      {unit : ℕ} {rest : List ℕ} → is_lead unit ≡ false → IsPaired rest → IsPaired (unit ∷ rest)

abbrev Legal : Converted → Type 0
Legal illegal = ⊥
Legal (done out) = Unit {0}
Legal too_long = Unit {0}
Legal out_of_fuel = Unit {0}

Legal-prepend : (bytes : List ℕ) (c : Converted) → Legal c → Legal (prepend bytes c)
unfolding prepend
Legal-prepend bytes (done out) h = tt
Legal-prepend bytes illegal h = h
Legal-prepend bytes too_long h = tt
Legal-prepend bytes out_of_fuel h = tt

Legal-after_char :
    (wc : ℕ) (w : Option (List ℕ)) (loop : ℕ → Converted)
    → ((wc == 0) ≡ false → (n : ℕ) → Legal (loop n))
    → Legal (after_char wc w loop)
unfolding after_char
Legal-after_char wc none loop h = tt
Legal-after_char wc (some bytes) loop h = elim (Bool-cases (wc == 0)) [
  | inl e ↦ rw e tt
  | inr e ↦ rw e (Legal-prepend bytes (loop (length bytes)) (h e (length bytes)))
]

Legal-terminate : (room : ℕ) → Legal (terminate room)
unfolding terminate
Legal-terminate room = elim (Bool-cases (room == 0)) [ inl e ↦ rw e tt | inr e ↦ rw e tt ]

-- The character of a pair of surrogates.
abbrev character : ℕ → ℕ → ℕ
character high low = bit_or (bit_and high 0x3ff <<< 10) (bit_and low 0x3ff) + 0x10000

utf16_loop-Legal :
    (fuel room : ℕ) (input : List ℕ) → IsPaired input → Legal (utf16_loop fuel input room)
unfolding utf16_loop utf16_to_wchar low_surrogate
utf16_loop-Legal fuel room [] ended = Legal-terminate room
utf16_loop-Legal zero room (u ∷ input) p = tt
utf16_loop-Legal (suc fuel) room (u ∷ input) (nul rest) =
    Legal-after_char 0 (wchar_to_utf8 0 room) _ λ bad n. absurd (==→ne 0 0 bad refl)
utf16_loop-Legal (suc fuel) room (u ∷ input) (pair {low = low} {rest = rest} lead trail p) =
    rw (Legal, lead, trail)
      (Legal-after_char (character u low) (wchar_to_utf8 (character u low) room) _
        λ more n. utf16_loop-Legal fuel (room - n) rest p)
utf16_loop-Legal (suc fuel) room (u ∷ input) (single lead p) =
    rw (Legal, lead)
      (Legal-after_char u (wchar_to_utf8 u room) _
        λ more n. utf16_loop-Legal fuel (room - n) input p)

-- A name whose surrogates are paired, with three bytes of room for each 16-bit unit and one for the
-- NUL, is converted to UTF-8: neither an error nor the end of the buffer is met.
pub utf16_to_utf8-IsPaired :
    (input : List ℕ) (outsize : ℕ)
    → IsUnits input
    → IsPaired input
    → 3 * length input < outsize
    → (out : List ℕ) × (utf16_to_utf8 input outsize ≡ done out)
unfolding utf16_to_utf8
utf16_to_utf8-IsPaired input outsize units paired fits =
    go (utf16_to_utf8 input outsize) refl (utf16_to_utf8-Ends input outsize units fits)
      (utf16_loop-Legal (length input) outsize input paired)
  where
    go :
        (c : Converted)
        → utf16_to_utf8 input outsize ≡ c
        → Ends (utf16_to_utf8 input outsize)
        → Legal (utf16_to_utf8 input outsize)
        → (out : List ℕ) × (utf16_to_utf8 input outsize ≡ done out)
    go (done out) e h k = (out, e)
    go illegal e h k = absurd (subst Legal e k)
    go too_long e h k = absurd (subst Ends e h)
    go out_of_fuel e h k = absurd (subst Ends e h)
