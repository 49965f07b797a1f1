-- ===== src/Options/Examples.antt =====
-- The options "rw,ro" and the option "ro".
use exfat.Prelude.{ℕ, ◌≡◌, refl, ◌↔◌, true, false, some, List, [], ◌∷◌}
use exfat.Options.{match_option, get_option}
use exfat.Options.Found.{IsOption, match_option-IsOption}

abbrev rw_ro : List ℕ
rw_ro = 0x72 ∷ 0x77 ∷ 0x2c ∷ 0x72 ∷ 0x6f ∷ []

abbrev ro : List ℕ
ro = 0x72 ∷ 0x6f ∷ []

match_option-IsOption_example : (match_option rw_ro ro ≡ true) ↔ IsOption true rw_ro ro
match_option-IsOption_example = match_option-IsOption rw_ro ro

ro_found : match_option rw_ro ro ≡ true
unfolding match_option
ro_found = refl

-- "ro_fallback" is not "ro".
fallback : match_option (0x72 ∷ 0x6f ∷ 0x5f ∷ []) ro ≡ false
unfolding match_option
fallback = refl

-- "a,ro=8"
value : get_option (0x61 ∷ 0x2c ∷ 0x72 ∷ 0x6f ∷ 0x3d ∷ 0x38 ∷ []) ro ≡ some (0x38 ∷ [])
unfolding get_option
value = refl
