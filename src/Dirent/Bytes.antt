-- ===== src/Dirent/Bytes.antt =====
-- Fields and names as bytes: what is stored is read back.
use exfat.Prelude.{
  ℕ, zero, suc, ◌+◌, ◌-◌, ◌*◌, ◌/◌, ◌%◌, ◌^◌, ◌≤◌, ◌<◌, ◌≡◌, refl, sym, ap, ◌∙◌, List, [], ◌∷◌,
  ◌++◌, take, drop, length, arith, length-take, length-drop,
}
use exfat.Dirent.{units, unit_bytes, entry_names, name_entries_of}

pub data AllUnits : List ℕ → Type 0 where
  no_units : AllUnits []
  unit_and : {unit : ℕ} {name : List ℕ} → unit < 2 ^ 16 → AllUnits name → AllUnits (unit ∷ name)

units-unit_bytes :
    (n : ℕ) (name : List ℕ) → AllUnits name → length name ≡ n → units n (unit_bytes name) ≡ name
unfolding units unit_bytes
units-unit_bytes zero [] no_units e = refl
units-unit_bytes zero (unit ∷ name) ok e = ground arith
units-unit_bytes (suc n) [] ok e = ground arith
units-unit_bytes (suc n) (unit ∷ name) (unit_and lt ok) e =
    let here : unit % 2 ^ 8 + 2 ^ 8 * (unit / 2 ^ 8 % 2 ^ 8 + 2 ^ 8 * 0) ≡ unit = omega arith in
    rw (here, units-unit_bytes n name ok (omega arith))

AllUnits-take : (n : ℕ) (name : List ℕ) → AllUnits name → AllUnits (take n name)
AllUnits-take zero name ok = no_units
AllUnits-take (suc n) [] ok = no_units
AllUnits-take (suc n) (unit ∷ name) (unit_and lt ok) = unit_and lt (AllUnits-take n name ok)

AllUnits-drop : (n : ℕ) (name : List ℕ) → AllUnits name → AllUnits (drop n name)
AllUnits-drop zero name ok = ok
AllUnits-drop (suc n) [] ok = no_units
AllUnits-drop (suc n) (unit ∷ name) (unit_and lt ok) = AllUnits-drop n name ok

module _ {ℓ} {A : Type ℓ} where
  take-append-take :
      (a b n : ℕ) (xs : List A) → n ≡ a + b → take a xs ++ take b (drop a xs) ≡ take n xs
  take-append-take zero b n xs e = ap (λ k. take k xs) (omega arith)
  take-append-take (suc a) b zero xs e = ground arith
  take-append-take (suc a) zero (suc n) [] e = refl
  take-append-take (suc a) (suc b) (suc n) [] e = refl
  take-append-take (suc a) b (suc n) (x ∷ xs) e =
      ap (λ l. x ∷ l) (take-append-take a b n xs (omega arith))

  drop-drop : (a b n : ℕ) (xs : List A) → n ≡ a + b → drop n xs ≡ drop b (drop a xs)
  drop-drop zero b n xs e = ap (λ k. drop k xs) (omega arith)
  drop-drop (suc a) b zero xs e = ground arith
  drop-drop (suc a) zero (suc n) [] e = refl
  drop-drop (suc a) (suc b) (suc n) [] e = refl
  drop-drop (suc a) b (suc n) (x ∷ xs) e = drop-drop a b n xs (omega arith)

  -- Lists that agree from `a` on agree from any later place.
  pub drop_later :
      (a n : ℕ) (xs ys : List A) → a ≤ n → drop a xs ≡ drop a ys → drop n xs ≡ drop n ys
  drop_later a n xs ys le e =
      drop-drop a (n - a) n xs (omega arith)
      ∙ ap (drop (n - a)) e
      ∙ sym (drop-drop a (n - a) n ys (omega arith))

-- The name entries give the units of the name back.
pub entry_names-name_entries_of :
    (n : ℕ) (name : List ℕ)
    → AllUnits name
    → 15 * n ≤ length name
    → entry_names (name_entries_of n name) ≡ take (15 * n) name
unfolding entry_names name_entries_of
entry_names-name_entries_of zero name ok le = refl
entry_names-name_entries_of (suc n) name ok le =
    let full : length (take 15 name) ≡ 15 = omega (arith, length-take 15 name) in
    let first = units-unit_bytes 15 (take 15 name) (AllUnits-take 15 name ok) full in
    let rest =
      entry_names-name_entries_of n (drop 15 name) (AllUnits-drop 15 name ok)
        (omega (arith, length-drop 15 name)) in
    ap (λ l. l ++ entry_names (name_entries_of n (drop 15 name))) first
    ∙ ap (λ l. take 15 name ++ l) rest
    ∙ take-append-take 15 (15 * n) (15 * suc n) name (omega arith)

pub length-name_entries_of : (n : ℕ) (name : List ℕ) → length (name_entries_of n name) ≡ n
unfolding name_entries_of
length-name_entries_of zero name = refl
length-name_entries_of (suc n) name = ap suc (length-name_entries_of n (drop 15 name))
