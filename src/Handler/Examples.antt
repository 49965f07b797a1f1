-- ===== src/Handler/Examples.antt =====
-- A name with a lone surrogate, and one of a pair.
use exfat.Prelude.{ℕ, ◌≡◌, refl, none, some, List, [], ◌∷◌, arith}
use exfat.Dirent.{get_name}
use exfat.Handler.{safe_get_name, bad_name}
use exfat.Handler.Names.{safe_get_name-some}

abbrev lone : List ℕ
lone = 0xd800 ∷ 0x41 ∷ 0 ∷ []

safe_get_name-some_example : (out : List ℕ) × (safe_get_name lone ≡ some out)
safe_get_name-some_example = safe_get_name-some lone (omega arith, (omega arith, (omega arith, tt)))

-- The function of the library stops the program on this name.
lone_stops : get_name lone ≡ none
unfolding get_name
lone_stops = refl

lone_is_replaced : safe_get_name lone ≡ some bad_name
unfolding safe_get_name
lone_is_replaced = refl

paired : safe_get_name (0xd83d ∷ 0xde00 ∷ 0 ∷ []) ≡ some (0xf0 ∷ 0x9f ∷ 0x98 ∷ 0x80 ∷ 0 ∷ [])
unfolding safe_get_name
paired = refl
