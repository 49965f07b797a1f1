-- ===== src/Lookup/Compare.antt =====
-- Comparing names is comparing their upper case forms.
use exfat.Prelude.{ℕ, ◌≡◌, ◌↔◌, refl, List, [], ◌∷◌, arith, ◌==◌, if◌then◌else◌}
use exfat.Prelude.Int.{pos, ◌-ℤ◌}
use exfat.Lookup.{compare_char, compare_name}

-- The units before the NUL, in upper case.
unfoldable pub upper : (ℕ → ℕ) → List ℕ → List ℕ
upper upcase [] = []
upper upcase (unit ∷ name) =
    let rest = upper upcase name in if unit == 0 then [] else upcase unit ∷ rest

-- The table has an entry of 0 for the NUL, and for no other character.
abbrev pub IsTable : (ℕ → ℕ) → Type 0
IsTable upcase = (c : ℕ) → (upcase c ≡ 0) ↔ (c ≡ 0)

compare_char-zero :
    (upcase : ℕ → ℕ) (a b : ℕ) → (compare_char upcase a b ≡ pos 0) ↔ (upcase a ≡ upcase b)
unfolding compare_char ◌-ℤ◌
compare_char-zero upcase a b = (λ e. ground arith, λ e. ground arith)

-- With a table whose only entry of 0 is that of the NUL, compare_name finds two names equal exactly
-- when their units before the NUL are the same in upper case.
pub compare_name-upper :
    (upcase : ℕ → ℕ) (a b : List ℕ)
    → IsTable upcase
    → (compare_name upcase a b ≡ pos 0) ↔ (upper upcase a ≡ upper upcase b)
unfolding compare_name upper
compare_name-upper upcase [] [] t = (λ e. refl, λ e. (compare_char-zero upcase 0 0).1 refl)
compare_name-upper upcase [] (b ∷ ys) t = (
  λ e. ground (arith, t 0, t b, (compare_char-zero upcase 0 b).0 e),
  λ e. (compare_char-zero upcase 0 b).1 (ground (arith, t 0, t b, e)),
)
compare_name-upper upcase (a ∷ xs) [] t = (
  λ e. ground (arith, t 0, t a, (compare_char-zero upcase a 0).0 e),
  λ e. (compare_char-zero upcase a 0).1 (ground (arith, t 0, t a, e)),
)
compare_name-upper upcase (a ∷ xs) (b ∷ ys) t =
    ground (arith, t 0, t a, t b, compare_char-zero upcase a b, compare_name-upper upcase xs ys t)
