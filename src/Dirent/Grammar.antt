-- ===== src/Dirent/Grammar.antt =====
-- `check_entries` against the grammar of an entry set: a file entry, its info, one or more names, and
-- then any number of optional entries.
use exfat.Prelude.{
  ℕ, ◌≤◌, ◌≡◌, ◌↔◌, refl, sym, ap, ◌∙◌, Bool, true, ◌&&◌, none, some, List, [], ◌∷◌, ◌++◌, ◌==◌,
  get_or, arith, Bool-cases, inl, inr,
}
use exfat.Dirent.{
  entry_file, entry_file_info, entry_file_name, entry_file_tail, valid_after, check_types,
  check_entries,
}

abbrev pub entry_type : List ℕ → ℕ
entry_type entry = get_or entry 0 0

pub data All (P : ℕ → Type 0) : List (List ℕ) → Type 0 where
  all_nil : All P []
  all_cons :
      {entry : List ℕ} {entries : List (List ℕ)}
      → P (entry_type entry)
      → All P entries
      → All P (entry ∷ entries)

abbrev pub IsName : ℕ → Type 0
IsName type = type ≡ entry_file_name

abbrev pub IsTail : ℕ → Type 0
IsTail type = entry_file_tail ≤ type

pub record NamesThenTails (entries : List (List ℕ)) : Type 0 where
  pub names : List (List ℕ)
  pub tails : List (List ℕ)
  pub shape : entries ≡ names ++ tails
  pub names_ok : All IsName names
  pub tails_ok : All IsTail tails

pub record IsEntrySet (entries : List (List ℕ)) : Type 0 where
  pub file : List ℕ
  pub info : List ℕ
  pub first_name : List ℕ
  pub more : List (List ℕ)
  pub shape : entries ≡ file ∷ info ∷ first_name ∷ more
  pub file_ok : entry_type file ≡ entry_file
  pub info_ok : entry_type info ≡ entry_file_info
  pub name_ok : entry_type first_name ≡ entry_file_name
  pub more_ok : NamesThenTails more

and_true : (a b : Bool) → a && b ≡ true → (a ≡ true) × (b ≡ true)
and_true a b h = (ground arith, ground arith)

module _ (previous : ℕ) (entry : List ℕ) (entries : List (List ℕ)) where
  step :
      check_types (some previous) (entry ∷ entries) ≡ true
      → (valid_after (some previous) (some (entry_type entry)) ≡ true)
        × (check_types (some (entry_type entry)) entries ≡ true)
  unfolding check_types
  step e =
      and_true (valid_after (some previous) (some (entry_type entry)))
        (check_types (some (entry_type entry)) entries) e

  both :
      valid_after (some previous) (some (entry_type entry)) ≡ true
      → check_types (some (entry_type entry)) entries ≡ true
      → check_types (some previous) (entry ∷ entries) ≡ true
  unfolding check_types
  both a b = rw a b

-- After an optional entry there are only optional entries.
tails_from :
    (previous : ℕ) (entries : List (List ℕ))
    → entry_file_tail ≤ previous
    → check_types (some previous) entries ≡ true
    → All IsTail entries
unfolding valid_after
tails_from previous [] h e = all_nil
tails_from previous (entry ∷ entries) h e =
    let (valid, rest) = step previous entry entries e in
    let here : entry_file_tail ≤ entry_type entry = ground (arith, valid) in
    all_cons here (tails_from (entry_type entry) entries here rest)

tails_pass :
    (previous : ℕ) (entries : List (List ℕ))
    → entry_file_tail ≤ previous
    → All IsTail entries
    → check_types (some previous) entries ≡ true
unfolding check_types valid_after
tails_pass previous [] h all_nil = ground arith
tails_pass previous (entry ∷ entries) h (all_cons here rest) =
    both previous entry entries (ground arith) (tails_pass (entry_type entry) entries here rest)

-- After a name there are names, then optional entries.
names_from :
    (entries : List (List ℕ))
    → check_types (some entry_file_name) entries ≡ true
    → NamesThenTails entries
unfolding valid_after
names_from [] e = record {
  names = [];
  tails = [];
  shape = refl;
  names_ok = all_nil;
  tails_ok = all_nil;
}
names_from (entry ∷ entries) e =
    let (valid, rest) = step entry_file_name entry entries e in
    elim (Bool-cases (entry_type entry == entry_file_name)) [
      | inl name ↦
          let type : entry_type entry ≡ entry_file_name = ground (arith, name) in
          let r = names_from entries (ap (λ t. check_types (some t) entries) (sym type) ∙ rest) in
          record {
            names = entry ∷ r.names;
            tails = r.tails;
            shape = ap (λ l. entry ∷ l) r.shape;
            names_ok = all_cons type r.names_ok;
            tails_ok = r.tails_ok;
          }
      | inr other ↦
          let here : entry_file_tail ≤ entry_type entry = ground (arith, valid, other) in
          record {
            names = [];
            tails = entry ∷ entries;
            shape = refl;
            names_ok = all_nil;
            tails_ok = all_cons here (tails_from (entry_type entry) entries here rest);
          }
    ]

names_pass :
    (names tails : List (List ℕ))
    → All IsName names
    → All IsTail tails
    → check_types (some entry_file_name) (names ++ tails) ≡ true
unfolding check_types valid_after
names_pass [] [] all_nil all_nil = refl
names_pass [] (tail ∷ tails) all_nil (all_cons here rest) =
    both entry_file_name tail tails (ground arith) (tails_pass (entry_type tail) tails here rest)
names_pass (name ∷ names) tails (all_cons here rest) ok =
    both entry_file_name name (names ++ tails) (ground arith)
      (ap (λ t. check_types (some t) (names ++ tails)) here ∙ names_pass names tails rest ok)

set_from : (entries : List (List ℕ)) → check_entries entries ≡ true → IsEntrySet entries
unfolding check_types valid_after
set_from [] e = ground arith
set_from (file ∷ []) e = ground arith
set_from (file ∷ info ∷ []) e = ground arith
set_from (file ∷ info ∷ name ∷ more) e =
    let is_file : entry_type file ≡ entry_file = ground arith in
    let (valid, rest) = step entry_file info (name ∷ more) (
      ap (λ t. check_types (some t) (info ∷ name ∷ more)) (sym is_file)
      ∙ (and_true (valid_after none (some (entry_type file)))
          (check_types (some (entry_type file)) (info ∷ name ∷ more)) e).1) in
    let is_info : entry_type info ≡ entry_file_info = ground (arith, valid) in
    let (named, last) =
      step entry_file_info name more
        (ap (λ t. check_types (some t) (name ∷ more)) (sym is_info) ∙ rest) in
    let is_name : entry_type name ≡ entry_file_name = ground (arith, named) in
    record {
      file = file;
      info = info;
      first_name = name;
      more = more;
      shape = refl;
      file_ok = is_file;
      info_ok = is_info;
      name_ok = is_name;
      more_ok = names_from more (ap (λ t. check_types (some t) more) (sym is_name) ∙ last);
    }

set_pass : (entries : List (List ℕ)) → IsEntrySet entries → check_entries entries ≡ true
unfolding check_types valid_after
set_pass entries s =
    let rest : check_types (some entry_file_name) s.more ≡ true =
      ap (check_types (some entry_file_name)) s.more_ok.shape
      ∙ names_pass s.more_ok.names s.more_ok.tails s.more_ok.names_ok s.more_ok.tails_ok in
    ap (check_types none) s.shape ∙ rw (s.file_ok, s.info_ok, s.name_ok, rest)

-- `check_entries` accepts a set of entries exactly when it is a file entry, a file info entry, at
-- least one file name entry, and then more name entries followed by optional entries only.
pub check_entries-IsEntrySet :
    (entries : List (List ℕ)) → (check_entries entries ≡ true) ↔ IsEntrySet entries
check_entries-IsEntrySet entries = (set_from entries, set_pass entries)
