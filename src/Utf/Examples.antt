-- ===== src/Utf/Examples.antt =====
-- The conversions on short names: "Aé" and a character of two units.
use exfat.Prelude.{ℕ, ◌<◌, ◌≤◌, ◌≡◌, refl, List, [], ◌∷◌, ◌++◌, length, arith}
use exfat.Utf.{done, utf16_to_utf8, utf8_to_utf16}
use exfat.Utf.Utf16.{IsText}
use exfat.Utf.Strings.{utf8_to_utf16-utf16_to_utf8}
use exfat.Utf.Room.{Ends, utf16_to_utf8-Ends}

abbrev e_acute : List ℕ
e_acute = 0xc3 ∷ 0xa9 ∷ []

abbrev name : List ℕ
name = 0x41 ∷ 0xe9 ∷ 0xd83d ∷ 0xde00 ∷ []

name-IsText : IsText name
name-IsText = (
  omega arith,
  omega arith,
  (omega arith, omega arith, (omega arith, omega arith, (omega arith, omega arith, tt))),
)

abbrev name_bytes : List ℕ
name_bytes = 0x41 ∷ 0xc3 ∷ 0xa9 ∷ 0xf0 ∷ 0x9f ∷ 0x98 ∷ 0x80 ∷ 0 ∷ []

utf8_to_utf16-utf16_to_utf8_example :
    (text : List ℕ) × (name_bytes ≡ text ++ 0 ∷ [])
    × (length name_bytes ≤ 20)
    × ((room : ℕ) → length name < room → utf8_to_utf16 text room ≡ done (name ++ 0 ∷ []))
unfolding utf16_to_utf8
utf8_to_utf16-utf16_to_utf8_example =
    utf8_to_utf16-utf16_to_utf8 name name_bytes 20 name-IsText refl

utf16_to_utf8-Ends_example : Ends (utf16_to_utf8 (0x41 ∷ 0xd83d ∷ []) 7)
utf16_to_utf8-Ends_example =
    utf16_to_utf8-Ends (0x41 ∷ 0xd83d ∷ []) 7 (omega arith, (omega arith, tt)) (omega arith)
