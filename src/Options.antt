-- ===== src/Options.antt =====
-- The options of a mount: `exfat_match_option` of libexfat/utils.c, and `get_option`,
-- `get_int_option` and `parse_options` of libexfat/mount.c. An option string is the list of its bytes
-- up to the NUL. `strtol` and the user of the process are arguments.
pub mod Found
mod Examples
use exfat.Prelude.{
  ℕ, Bool, true, false, ◌&&◌, ◌||◌, Option, none, some, List, [], ◌∷◌, ◌==◌, if◌then◌else◌,
}
use exfat.Prelude.Int.{ℤ, pos, negsuc}

abbrev pub comma : ℕ
comma = 0x2c

abbrev pub equals : ℕ
equals = 0x3d

-- What follows a prefix, as `strstr` finds it at a place.
unfoldable pub after_prefix : List ℕ → List ℕ → Option (List ℕ)
after_prefix [] options = some options
after_prefix (c ∷ name) [] = none
after_prefix (c ∷ name) (o ∷ options) =
    let rest = after_prefix name options in if c == o then rest else none

abbrev pub ends_option : List ℕ → Bool
ends_option [] = true
ends_option (c ∷ rest) = c == comma

-- `first` is whether the place is the start of the options or follows a comma.
abbrev pub is_whole : Bool → Option (List ℕ) → Bool
is_whole first none = false
is_whole first (some rest) = first && ends_option rest

unfoldable pub match_from : Bool → List ℕ → List ℕ → Bool
unfolding after_prefix
match_from first [] name = is_whole first (after_prefix name [])
match_from first (c ∷ options) name =
    is_whole first (after_prefix name (c ∷ options)) || match_from (c == comma) options name

unfoldable pub match_option : List ℕ → List ℕ → Bool
unfolding match_from
match_option options name = match_from true options name

-- The value of an option that is found at a place.
abbrev pub value_of : Bool → Option (List ℕ) → Option (List ℕ)
value_of first none = none
value_of first (some []) = none
value_of first (some (c ∷ rest)) = if first && c == equals then some rest else none

abbrev pub or_else : Option (List ℕ) → Option (List ℕ) → Option (List ℕ)
or_else none other = other
or_else (some value) other = some value

unfoldable pub get_from : Bool → List ℕ → List ℕ → Option (List ℕ)
unfolding after_prefix
get_from first [] name = value_of first (after_prefix name [])
get_from first (c ∷ options) name =
    or_else (value_of first (after_prefix name (c ∷ options))) (get_from (c == comma) options name)

unfoldable pub get_option : List ℕ → List ℕ → Option (List ℕ)
unfolding get_from
get_option options name = get_from true options name

pub data Repair : Type 0 where
  repair_no repair_ask repair_yes : Repair

pub record Options : Type 0 where
  pub dmask : ℤ
  pub fmask : ℤ
  pub uid : ℤ
  pub gid : ℤ
  pub noatime : Bool
  pub repair : Repair

-- `strtol` reads a number to a base from the start of its bytes.
module _ (strtol : List ℕ → ℕ → ℤ) (euid egid : ℤ) where
  unfoldable pub get_int_option : List ℕ → List ℕ → ℕ → ℤ → ℤ
  unfolding get_option
  get_int_option options name base default_value = elim (get_option options name) [
    | none ↦ default_value
    | some value ↦ strtol value base
  ]

  abbrev pub repair_of : ℤ → Repair
  repair_of (pos n) = if n == 1 then repair_ask else if n == 2 then repair_yes else repair_no
  repair_of (negsuc n) = repair_no

  unfoldable pub parse_options : List ℕ → Options
  unfolding get_int_option match_option
  parse_options options =
      let umask = get_int_option options (0x75 ∷ 0x6d ∷ 0x61 ∷ 0x73 ∷ 0x6b ∷ []) 8 (pos 0) in
      record {
        dmask = get_int_option options (0x64 ∷ 0x6d ∷ 0x61 ∷ 0x73 ∷ 0x6b ∷ []) 8 umask;
        fmask = get_int_option options (0x66 ∷ 0x6d ∷ 0x61 ∷ 0x73 ∷ 0x6b ∷ []) 8 umask;
        uid = get_int_option options (0x75 ∷ 0x69 ∷ 0x64 ∷ []) 10 euid;
        gid = get_int_option options (0x67 ∷ 0x69 ∷ 0x64 ∷ []) 10 egid;
        noatime = match_option options (0x6e ∷ 0x6f ∷ 0x61 ∷ 0x74 ∷ 0x69 ∷ 0x6d ∷ 0x65 ∷ []);
        repair =
            repair_of
              (get_int_option options (0x72 ∷ 0x65 ∷ 0x70 ∷ 0x61 ∷ 0x69 ∷ 0x72 ∷ []) 10 (pos 0));
      }
