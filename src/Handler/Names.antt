-- ===== src/Handler/Names.antt =====
-- safe_get_name has a text for every name, and does not stop the program.
use exfat.Prelude.{
  ℕ, zero, suc, ◌≡◌, refl, sym, subst, Bool, true, false, some, List, [], ◌∷◌, ◌==◌, if◌then◌else◌,
  take, length-take, arith, ==→eq, Bool-cases, inl, inr,
}
use exfat.Dirent.{name_max, utf8_name_buffer_max, get_name}
use exfat.Utf.Room.{IsUnits}
use exfat.Utf.Legal.{IsPaired, ended, nul, pair, single, is_lead, is_trail, utf16_to_utf8-IsPaired}
use exfat.Handler.{sane_from, name_is_sane, bad_name, safe_get_name}

IsUnits-take : (n : ℕ) (name : List ℕ) → IsUnits name → IsUnits (take n name)
IsUnits-take zero name h = tt
IsUnits-take (suc n) [] h = tt
IsUnits-take (suc n) (u ∷ name) h = (h.0, IsUnits-take n name h.1)

one_lem :
    (u : ℕ)
    → (if u == 0 then true else if is_lead u then false else if is_trail u then false else true)
      ≡ true
    → IsPaired (u ∷ [])
one_lem u h = elim (Bool-cases (u == 0)) [
  | inl e ↦ subst (λ v. IsPaired (v ∷ [])) (sym (==→eq u 0 e)) (nul [])
  | inr e ↦ elim (Bool-cases (is_lead u)) [
    | inl lead ↦ absurd (ground (arith, e, lead, h))
    | inr lead ↦ single lead ended
  ]
]

two_lem :
    (u low : ℕ) (rest : List ℕ) (after_pair after_unit : Bool)
    → (after_pair ≡ true → IsPaired rest)
    → (after_unit ≡ true → IsPaired (low ∷ rest))
    → (if u == 0
        then true
        else if is_lead u
        then (if is_trail low then after_pair else false)
        else if is_trail u
        then false
        else after_unit)
      ≡ true
    → IsPaired (u ∷ low ∷ rest)
two_lem u low rest after_pair after_unit paired united h = elim (Bool-cases (u == 0)) [
  | inl e ↦ subst (λ v. IsPaired (v ∷ low ∷ rest)) (sym (==→eq u 0 e)) (nul (low ∷ rest))
  | inr e ↦ elim (Bool-cases (is_lead u)) [
    | inl lead ↦ elim (Bool-cases (is_trail low)) [
      | inl trail ↦ pair lead trail (paired (ground (arith, e, lead, trail, h)))
      | inr trail ↦ absurd (ground (arith, e, lead, trail, h))
    ]
    | inr lead ↦ single lead (united (ground (arith, e, lead, h)))
  ]
]

sane_from-IsPaired : (n : ℕ) (name : List ℕ) → sane_from n name ≡ true → IsPaired (take n name)
unfolding sane_from
sane_from-IsPaired zero name h = ended
sane_from-IsPaired (suc n) [] h = ended
sane_from-IsPaired (suc zero) (u ∷ name) h = one_lem u h
sane_from-IsPaired (suc (suc n)) (u ∷ []) h = one_lem u h
sane_from-IsPaired (suc (suc n)) (u ∷ low ∷ name) h =
    two_lem u low (take n name) (sane_from n name) (sane_from (suc n) (low ∷ name))
      (sane_from-IsPaired n name) (sane_from-IsPaired (suc n) (low ∷ name)) h

-- Whatever 16-bit units a name on the disk has, safe_get_name gives a text for it: the conversion of a
-- name that it finds sane does not stop the program, and one that is not sane gets a text of its own.
pub safe_get_name-some :
    (name : List ℕ) → IsUnits name → (out : List ℕ) × (safe_get_name name ≡ some out)
unfolding safe_get_name get_name name_is_sane
safe_get_name-some name units = elim (Bool-cases (sane_from name_max name)) [
  | inl sane ↦
      let converted =
        utf16_to_utf8-IsPaired (take name_max name) utf8_name_buffer_max
          (IsUnits-take name_max name units) (sane_from-IsPaired name_max name sane)
          (omega (arith, length-take name_max name)) in
      (converted.0, rw (safe_get_name, sane, converted.1) refl)
  | inr bad ↦ (bad_name, rw (safe_get_name, bad) refl)
]
