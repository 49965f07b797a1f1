-- ===== src/Lookup/Components.antt =====
-- The components of a path, taken one by one, are its fields between slashes.
use exfat.Prelude.{
  ℕ, ◌+◌, ◌<◌, ◌≤◌, ◌≡◌, refl, sym, ap, ◌∙◌, true, false, List, [], ◌∷◌, arith, ◌==◌, if◌then◌else◌,
  Bool-cases, inl, inr, length,
}
use exfat.Lookup.Walk.{slash, skip_slashes, until_slash, get_comp, is_dot}

abbrev on_head : ℕ → List (List ℕ) → List (List ℕ)
on_head c [] = (c ∷ []) ∷ []
on_head c (field ∷ fields) = (c ∷ field) ∷ fields

-- What stands between the slashes, with empty fields.
unfoldable pub fields : List ℕ → List (List ℕ)
fields [] = [] ∷ []
fields (c ∷ path) = if c == slash then [] ∷ fields path else on_head c (fields path)

-- The fields that are neither empty nor a dot.
unfoldable pub kept : List (List ℕ) → List (List ℕ)
kept [] = []
kept (field ∷ fields) =
    if length field == 0
    then kept fields
    else if is_dot field
    then kept fields
    else field ∷ kept fields

unfoldable pub components : List ℕ → List (List ℕ)
unfolding kept fields
components path = kept (fields path)

-- The fields behind the first, from the slash that ends it.
abbrev fields_after : List ℕ → List (List ℕ)
fields_after [] = []
fields_after (c ∷ path) = fields path

fields_lem :
    (path : List ℕ) → fields path ≡ (until_slash path).0 ∷ fields_after (until_slash path).1
unfolding fields until_slash
fields_lem [] = refl
fields_lem (c ∷ path) = elim (Bool-cases (c == slash)) [
  | inl e ↦ rw e refl
  | inr e ↦ rw e (ap (on_head c) (fields_lem path))
]

after_lem :
    (path : List ℕ) → components (until_slash path).1 ≡ kept (fields_after (until_slash path).1)
unfolding components kept fields until_slash
after_lem [] = refl
after_lem (c ∷ path) = elim (Bool-cases (c == slash)) [
  | inl e ↦ rw (e, e) refl
  | inr e ↦ rw e (after_lem path)
]

skip-slash :
    (c : ℕ) (path : List ℕ) → (c == slash) ≡ true → skip_slashes (c ∷ path) ≡ skip_slashes path
unfolding skip_slashes
skip-slash c path e = rw (skip_slashes, e) refl

skip_other : (c : ℕ) (path : List ℕ) → (c == slash) ≡ false → skip_slashes (c ∷ path) ≡ c ∷ path
unfolding skip_slashes
skip_other c path e = rw (skip_slashes, e) refl

skip_lem : (path : List ℕ) → components path ≡ components (skip_slashes path)
unfolding components kept fields skip_slashes
skip_lem [] = refl
skip_lem (c ∷ path) = elim (Bool-cases (c == slash)) [
  | inl e ↦ rw e (skip_lem path) ∙ sym (ap components (skip-slash c path e))
  | inr e ↦ sym (ap components (skip_other c path e))
]

nothing_lem :
    (path : List ℕ)
    → (length (until_slash (skip_slashes path)).0 == 0) ≡ true
    → skip_slashes path ≡ []
unfolding until_slash skip_slashes
nothing_lem [] h = refl
nothing_lem (c ∷ path) h = elim (Bool-cases (c == slash)) [
  | inl e ↦
      let same = skip-slash c path e in
      same ∙ nothing_lem path (ap (λ p. length (until_slash p).0 == 0) (sym same) ∙ h)
  | inr e ↦
      let same = skip_other c path e in
      let taken : (length (until_slash (c ∷ path)).0 == 0) ≡ false = rw e (ground arith) in
      absurd (ground (arith, taken, ap (λ p. length (until_slash p).0 == 0) (sym same) ∙ h))
]

-- A path without a first component has none.
pub components_none :
    (path : List ℕ) → (length (get_comp path).0 == 0) ≡ true → components path ≡ []
unfolding get_comp components kept fields
components_none path h = skip_lem path ∙ ap components (nothing_lem path h)

-- The first component, unless it is a dot, and those of the rest.
pub components-get_comp :
    (path : List ℕ)
    → (length (get_comp path).0 == 0) ≡ false
    → components path ≡ (
        if is_dot (get_comp path).0
        then components (get_comp path).1
        else (get_comp path).0 ∷ components (get_comp path).1)
unfolding get_comp components kept
components-get_comp path h =
    skip_lem path
    ∙ ap kept (fields_lem (skip_slashes path))
    ∙ rw (h, sym (after_lem (skip_slashes path))) refl

until_length :
    (path : List ℕ) → length (until_slash path).0 + length (until_slash path).1 ≡ length path
unfolding until_slash
until_length [] = refl
until_length (c ∷ path) = elim (Bool-cases (c == slash)) [
  | inl e ↦ rw e (omega arith)
  | inr e ↦ rw e (omega (arith, until_length path))
]

skip_length : (path : List ℕ) → length (skip_slashes path) ≤ length path
unfolding skip_slashes
skip_length [] = omega arith
skip_length (c ∷ path) = elim (Bool-cases (c == slash)) [
  | inl e ↦ omega (arith, skip_length path, ap length (skip-slash c path e))
  | inr e ↦ omega (arith, ap length (skip_other c path e))
]

pub length-get_comp :
    (path : List ℕ)
    → (length (get_comp path).0 == 0) ≡ false
    → length (get_comp path).1 < length path
unfolding get_comp
length-get_comp path h = ground (arith, until_length (skip_slashes path), skip_length path, h)
