-- ===== src/Lookup.antt =====
-- Names of a path: libexfat/lookup.c. A name is a list of units that a NUL, or its end, closes;
-- `upcase` is the table `ef->upcase`, as a function of the unit.
pub mod Compare
pub mod Walk
pub mod Found
pub mod Components
pub mod Resolved
mod Examples
use exfat.Prelude.{
  ℕ, ◌-◌, Bool, true, false, not, ◌&&◌, ◌||◌, List, [], ◌∷◌, ◌==◌, leb, if◌then◌else◌, get_or,
}
use exfat.Prelude.Int.{ℤ, pos, ◌-ℤ◌}

unfoldable pub compare_char : (ℕ → ℕ) → ℕ → ℕ → ℤ
compare_char upcase a b = pos (upcase a) -ℤ pos (upcase b)

-- Whether the difference of two characters is 0.
abbrev pub same_char : (ℕ → ℕ) → ℕ → ℕ → Bool
same_char upcase a b = upcase a == upcase b

unfoldable pub compare_name : (ℕ → ℕ) → List ℕ → List ℕ → ℤ
unfolding compare_char
compare_name upcase [] b = compare_char upcase 0 (get_or b 0 0)
compare_name upcase (a ∷ xs) [] = compare_char upcase a 0
compare_name upcase (a ∷ xs) (b ∷ ys) =
    let rest = compare_name upcase xs ys in
    if a == 0 || b == 0
    then compare_char upcase a b
    else if same_char upcase a b
    then rest
    else compare_char upcase a b

-- The characters that a new name must not have.
abbrev pub is_refused : ℕ → Bool
is_refused c =
    (leb 0x01 c && leb c 0x1f)
    || c == 0x2f
    || c == 0x5c
    || c == 0x3a
    || c == 0x2a
    || c == 0x3f
    || c == 0x22
    || c == 0x3c
    || c == 0x3e
    || c == 0x7c

unfoldable pub is_allowed : List ℕ → Bool
is_allowed [] = true
is_allowed (c ∷ comp) = let rest = is_allowed comp in if is_refused c then false else rest
