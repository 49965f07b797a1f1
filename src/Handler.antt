-- ===== src/Handler.antt =====
-- The names that amiga/handler.c gives its packets: name_is_sane and safe_get_name. A name is the
-- list of its 16-bit units.
pub mod Names
mod Examples
use exfat.Prelude.{
  ℕ, zero, suc, ◌+◌, ◌*◌, ◌^◌, ◌%◌, bit_and, Bool, true, false, Option, none, some, List, [], ◌∷◌,
  ◌==◌, if◌then◌else◌, take,
}
use exfat.Dirent.{name_max, get_name}

-- The units from `i` on, of which `n` are before `EXFAT_NAME_MAX`.
unfoldable pub sane_from : ℕ → List ℕ → Bool
sane_from zero name = true
sane_from (suc n) [] = true
sane_from (suc zero) (u ∷ name) =
    if u == 0
    then true
    else if bit_and u 0xfc00 == 0xd800
    then false
    else if bit_and u 0xfc00 == 0xdc00
    then false
    else true
sane_from (suc (suc n)) (u ∷ []) =
    if u == 0
    then true
    else if bit_and u 0xfc00 == 0xd800
    then false
    else if bit_and u 0xfc00 == 0xdc00
    then false
    else true
sane_from (suc (suc n)) (u ∷ low ∷ name) =
    let after_pair = sane_from n name in
    let after_unit = sane_from (suc n) (low ∷ name) in
    if u == 0
    then true
    else if bit_and u 0xfc00 == 0xd800
    then (if bit_and low 0xfc00 == 0xdc00 then after_pair else false)
    else if bit_and u 0xfc00 == 0xdc00
    then false
    else after_unit

unfoldable pub name_is_sane : List ℕ → Bool
unfolding sane_from
name_is_sane name = sane_from name_max name

-- "<bad name>", with its NUL.
abbrev pub bad_name : List ℕ
bad_name = 0x3c ∷ 0x62 ∷ 0x61 ∷ 0x64 ∷ 0x20 ∷ 0x6e ∷ 0x61 ∷ 0x6d ∷ 0x65 ∷ 0x3e ∷ 0 ∷ []

unfoldable pub safe_get_name : List ℕ → Option (List ℕ)
unfolding get_name name_is_sane
safe_get_name name = if name_is_sane name then get_name name else some bad_name
