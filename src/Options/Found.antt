-- ===== src/Options/Found.antt =====
-- Which options are found.
use exfat.Prelude.{
  ℕ, ◌≡◌, refl, ap, sym, subst, ◌∙◌, ◌↔◌, Bool, true, false, ◌||◌, Option, none, some, List, [],
  ◌∷◌, ◌++◌, ◌==◌, if◌then◌else◌, arith, ==→eq,
}
use exfat.Options.{comma, after_prefix, ends_option, is_whole, match_from, match_option}

-- Whether an option may start after these bytes: at the start, or behind a comma.
abbrev pub starts_option : Bool → List ℕ → Bool
starts_option first [] = first
starts_option first (c ∷ before) = starts_option (c == comma) before

-- An option in a string: what is before it, and what follows it.
pub record IsOption (first : Bool) (options name : List ℕ) : Type 0 where
  pub before : List ℕ
  pub rest : List ℕ
  pub at : options ≡ before ++ (name ++ rest)
  pub starts : starts_option first before ≡ true
  pub ends : ends_option rest ≡ true

after_prefix-append : (name rest : List ℕ) → after_prefix name (name ++ rest) ≡ some rest
unfolding after_prefix
after_prefix-append [] rest = refl
after_prefix-append (c ∷ name) rest =
    let same : (c == c) ≡ true = ground arith in
    rw (after_prefix, same) (after_prefix-append name rest)

after_prefix-some :
    (name options rest : List ℕ) → after_prefix name options ≡ some rest → options ≡ name ++ rest
unfolding after_prefix
after_prefix-some [] options rest h = ground arith
after_prefix-some (c ∷ name) [] rest h = ground arith
after_prefix-some (c ∷ name) (o ∷ options) rest h =
    go (c == o) refl h (after_prefix-some name options rest)
  where
    go :
        (b : Bool)
        → (c == o) ≡ b
        → (if b then after_prefix name options else none) ≡ some rest
        → (after_prefix name options ≡ some rest → options ≡ name ++ rest)
        → ◌≡◌ {A = List ℕ} (o ∷ options) (c ∷ (name ++ rest))
    go true e found more =
        ap (λ (x : ℕ). x ∷ options) (sym (==→eq c o e)) ∙ ap (λ (xs : List ℕ). c ∷ xs) (more found)
    go false e found more = ground arith

is_whole-some :
    (first : Bool) (r : Option (List ℕ))
    → is_whole first r ≡ true
    → (rest : List ℕ) × (r ≡ some rest) × (first ≡ true) × (ends_option rest ≡ true)
is_whole-some first none h = ground arith
is_whole-some true (some rest) h = (rest, refl, refl, h)
is_whole-some false (some rest) h = ground arith

here_found :
    (first : Bool) (options name : List ℕ)
    → is_whole first (after_prefix name options) ≡ true
    → IsOption first options name
here_found first options name h =
    let (rest, at, starts, ends) = is_whole-some first (after_prefix name options) h in
    record {
      before = [];
      rest = rest;
      at = after_prefix-some name options rest at;
      starts = starts;
      ends = ends;
    }

found :
    (options : List ℕ) (first : Bool) (name : List ℕ)
    → match_from first options name ≡ true
    → IsOption first options name
unfolding match_from
found [] first name h = here_found first [] name h
found (c ∷ options) first name h =
    go (is_whole first (after_prefix name (c ∷ options))) refl h (found options (c == comma) name)
  where
    go :
        (b : Bool)
        → is_whole first (after_prefix name (c ∷ options)) ≡ b
        → (b || match_from (c == comma) options name) ≡ true
        → (match_from (c == comma) options name ≡ true → IsOption (c == comma) options name)
        → IsOption first (c ∷ options) name
    go true e h more = here_found first (c ∷ options) name e
    go false e h more =
        let later = more h in
        record {
          before = c ∷ later.before;
          rest = later.rest;
          at = ap (λ (xs : List ℕ). c ∷ xs) later.at;
          starts = later.starts;
          ends = later.ends;
        }

or_true : (b : Bool) → (b || true) ≡ true
or_true true = refl
or_true false = refl

match_here :
    (options name rest : List ℕ)
    → after_prefix name options ≡ some rest
    → ends_option rest ≡ true
    → match_from true options name ≡ true
unfolding match_from
match_here [] name rest h ends = rw (match_from, h) ends
match_here (c ∷ options) name rest h ends = rw (match_from, h, ends) refl

matched :
    (before : List ℕ) (first : Bool) (name rest : List ℕ)
    → starts_option first before ≡ true
    → ends_option rest ≡ true
    → match_from first (before ++ (name ++ rest)) name ≡ true
unfolding match_from
matched [] first name rest starts ends =
    rw starts (match_here (name ++ rest) name rest (after_prefix-append name rest) ends)
matched (b ∷ before) first name rest starts ends =
    ap (λ (m : Bool). is_whole first (after_prefix name (b ∷ (before ++ (name ++ rest)))) || m)
      (matched before (b == comma) name rest starts ends)
    ∙ or_true _

-- An option matches when, and only when, it stands in the string at the start or behind a comma, with
-- a comma or the end behind it.
pub match_option-IsOption :
    (options name : List ℕ) → (match_option options name ≡ true) ↔ IsOption true options name
unfolding match_option
match_option-IsOption options name = (
  found options true name,
  λ o.
      subst (λ t. match_from true t name ≡ true) (sym o.at)
        (matched o.before true name o.rest o.starts o.ends),
)
