-- ===== src/Utf/Utf16.antt =====
-- One character: `wchar_to_utf16` gives back the units that `utf16_to_wchar` reads.
use mathlib.Core.Path.{subst}
use exfat.Prelude.{
  ℕ, ◌+◌, ◌-◌, ◌*◌, ◌/◌, ◌%◌, ◌^◌, ◌≤◌, ◌<◌, bit_and, bit_or, ◌≡◌, ◌≢◌, refl, ap, ◌∙◌, inl, inr,
  false, some, List, [], ◌∷◌, ◌++◌, ◌==◌, ltb, leb, length, arith, Bool-cases,
}
use exfat.Prelude.Fields.{bit_or_field, bit_and_low, bit_and_field}
use exfat.Utf.{low_surrogate, utf16_to_wchar, wchar_to_utf16}

-- Units of 16 bits, none of them NUL.
abbrev pub IsText : List ℕ → Type 0
IsText [] = Unit
IsText (u ∷ us) = (0 < u) × (u < 0x10000) × IsText us

-- A value of twenty bits is written as two surrogates.
written_pair :
    (v room : ℕ)
    → v < 0x100000
    → 2 ≤ room
    → wchar_to_utf16 (v + 0x10000) room ≡ some ((0xd800 + v / 1024) ∷ (0xdc00 + v % 1024) ∷ [])
unfolding wchar_to_utf16
written_pair v room small r =
    let big : leb (v + 0x10000) 0xffff ≡ false = ground arith in
    let fits : ltb room 2 ≡ false = ground arith in
    let value : v + 0x10000 - 0x10000 ≡ v = omega arith in
    let high : bit_or 0xd800 (bit_and (v / 1024) 0x3ff) ≡ 0xd800 + v / 1024 =
      ground (arith, bit_and_low 10 (v / 1024), bit_or_field 10 54 (v / 1024)) in
    let low : bit_or 0xdc00 (bit_and v 0x3ff) ≡ 0xdc00 + v % 1024 =
      ground (arith, bit_and_low 10 v, bit_or_field 10 55 (v % 1024)) in
    rw (big, fits, value, high, low)

surrogates :
    (high low room : ℕ)
    → bit_and high 0xfc00 ≡ 0xd800
    → bit_and low 0xfc00 ≡ 0xdc00
    → high < 0x10000
    → low < 0x10000
    → 2 ≤ room
    → wchar_to_utf16 (bit_or (bit_and high 0x3ff * 2 ^ 10) (bit_and low 0x3ff) + 0x10000) room
      ≡ some (high ∷ low ∷ [])
surrogates high low room h l hs ls r =
    let value : bit_or (bit_and high 0x3ff * 2 ^ 10) (bit_and low 0x3ff)
        ≡ high % 1024 * 1024 + low % 1024 =
      ground (
        arith,
        bit_and_low 10 high,
        bit_and_low 10 low,
        bit_or_field 10 (high % 1024) (low % 1024),
      ) in
    let high_back : 0xd800 + (high % 1024 * 1024 + low % 1024) / 1024 ≡ high =
      omega (arith, bit_and_field 10 6 high) in
    let low_back : 0xdc00 + (high % 1024 * 1024 + low % 1024) % 1024 ≡ low =
      omega (arith, bit_and_field 10 6 low) in
    rw value (
      written_pair (high % 1024 * 1024 + low % 1024) room (omega arith) r
      ∙ ap (λ t. some (t ∷ (0xdc00 + (high % 1024 * 1024 + low % 1024) % 1024) ∷ [])) high_back
      ∙ ap (λ t. some (high ∷ t ∷ [])) low_back)

-- What one step of the reader says of its input.
pub record Read (wc : ℕ) (rest input : List ℕ) : Type 0 where
  pub units : List ℕ
  pub whole : units ++ rest ≡ input
  pub some_units : 1 ≤ length units
  pub at_most : length units ≤ 2
  pub not_nul : wc ≢ 0
  pub text : IsText rest
  pub small : wc < 0x110000
  pub back : (room : ℕ) → length units ≤ room → wchar_to_utf16 wc room ≡ some units

Read-one : (u : ℕ) (rest : List ℕ) → 0 < u → u < 0x10000 → IsText rest → Read u rest (u ∷ rest)
Read-one u rest pos small t = record {
  units = u ∷ [];
  whole = refl;
  some_units = omega arith;
  at_most = omega arith;
  not_nul = omega arith;
  text = t;
  small = omega arith;
  back = λ room h. unfold wchar_to_utf16 in ground arith;
}

Read-two :
    (high low : ℕ) (rest : List ℕ)
    → IsText (high ∷ low ∷ rest)
    → bit_and high 0xfc00 ≡ 0xd800
    → bit_and low 0xfc00 ≡ 0xdc00
    → Read
        (bit_or (bit_and high 0x3ff * 2 ^ 10) (bit_and low 0x3ff) + 0x10000)
        rest
        (high ∷ low ∷ rest)
Read-two high low rest t h l = record {
  units = high ∷ low ∷ [];
  whole = refl;
  some_units = omega arith;
  at_most = omega arith;
  not_nul = omega arith;
  text = t.2.2;
  small =
      ground (
        arith,
        bit_and_low 10 high,
        bit_and_low 10 low,
        bit_or_field 10 (high % 1024) (low % 1024),
      );
  back = λ room r. surrogates high low room h l t.1 t.2.1 r;
}

pub utf16_to_wchar-Read :
    (u : ℕ) (input : List ℕ) (wc : ℕ) (rest : List ℕ)
    → IsText (u ∷ input)
    → utf16_to_wchar (u ∷ input) ≡ some (wc, rest)
    → Read wc rest (u ∷ input)
unfolding utf16_to_wchar
utf16_to_wchar-Read u input wc rest t h = elim (Bool-cases (bit_and u 0xfc00 == 0xd800)) [
  | inl high ↦ pair input t (ground arith) (rw high at h)
  | inr single ↦
      let same : ◌≡◌ {A = ℕ × List ℕ} (u, input) (wc, rest) = ground arith in
      subst (λ r. Read r.0 r.1 (u ∷ input)) same (Read-one u input t.0 t.1 t.2)
]
  where
    pair :
        (input : List ℕ)
        → IsText (u ∷ input)
        → bit_and u 0xfc00 ≡ 0xd800
        → low_surrogate u input ≡ some (wc, rest)
        → Read wc rest (u ∷ input)
    pair [] t high h = cc
    pair (low ∷ input) t high h = elim (Bool-cases (bit_and low 0xfc00 == 0xdc00)) [
      | inl ok ↦
          let same : ◌≡◌ {A = ℕ × List ℕ}
              (bit_or (bit_and u 0x3ff * 2 ^ 10) (bit_and low 0x3ff) + 0x10000, input) (wc, rest) =
            ground arith in
          subst (λ r. Read r.0 r.1 (u ∷ low ∷ input)) same
            (Read-two u low input t high (ground arith))
      | inr bad ↦ cc (rw bad at h)
    ]
