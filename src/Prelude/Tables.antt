-- ===== src/Prelude/Tables.antt =====
-- Tables that evaluation fills.
use Prim.Native.Nat.{ℕ, zero, suc, ◌+◌, ◌≤◌, ◌<◌}
use mathlib.Core.Path.{◌≡◌, ap, sym, ◌∙◌}
use mathlib.Core.Logic.{◌⊎◌, inl, inr}
use mathlib.Core.Bool.{Bool, true, false}
use native.Mathlib.Omega.{arith}
use exfat.Prelude.Tests.{if◌then◌else◌}

-- A test that passes at `n` numbers from `i` on: a table, which evaluation fills.
passes_from : ℕ → ℕ → (ℕ → Bool) → Bool
passes_from zero i test = true
passes_from (suc n) i test =
    let later = passes_from n (i + 1) test in if test i then later else false

unfoldable pub all_below : ℕ → (ℕ → Bool) → Bool
unfolding passes_from
all_below bound test = passes_from bound 0 test

passes_from_lem :
    (n i x : ℕ) (test : ℕ → Bool) → i ≤ x → x < i + n → passes_from n i test ≡ true → test x ≡ true
unfolding passes_from
passes_from_lem zero i x test lo hi e = ground arith
passes_from_lem (suc n) i x test lo hi e = elim (eq_or_lt i x lo) [
  | inl same ↦ ap test (sym same) ∙ ground arith
  | inr later ↦ passes_from_lem n (i + 1) x test (omega arith) (omega arith) (ground arith)
]
  where
    eq_or_lt : (i x : ℕ) → i ≤ x → (i ≡ x) ⊎ (i + 1 ≤ x)
    eq_or_lt i x le = ground arith

pub all_below_sound :
    (bound : ℕ) (test : ℕ → Bool) (x : ℕ) → all_below bound test ≡ true → x < bound → test x ≡ true
unfolding all_below
all_below_sound bound test x table small =
    passes_from_lem bound 0 x test (omega arith) (omega arith) table
