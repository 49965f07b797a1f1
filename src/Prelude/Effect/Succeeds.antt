-- ===== src/Prelude/Effect/Succeeds.antt =====
-- Operations that end in a result.
use mathlib.Core.Bool.{Bool, true, false}
use exfat.Prelude.Effect.{Op, ◌>>=◌, ◌>>◌, pure, gets, modify, branch}
use exfat.Prelude.Effect.Holds.{Holds, Holds-bind}

-- From each state with `I` an operation ends in a result, whose state has `I` again.
pub record Succeeds {S A : Type 0} (I : S → Type 0) (m : Op S A) : Type 0 where
  pub goes : (s : S) → I s → Holds ⊥ (λ rc s'. ⊥) (λ a. I) (m s)

module _ {S : Type 0} {I : S → Type 0} where
  pub Succeeds-bind :
      {A C : Type 0} {m : Op S A} {f : A → Op S C}
      → Succeeds I m
      → ((a : A) → Succeeds I (f a))
      → Succeeds I (m >>= f)
  Succeeds-bind {m = m} {f = f} h k = record {
    goes = λ s i.
        Holds-bind ⊥ (λ rc s'. ⊥) (λ a. I) (λ a. I) m f s (h.goes s i) λ a s' j. (k a).goes s' j;
  }

  pub Succeeds->> :
      {A C : Type 0} {m : Op S A} {f : Op S C} → Succeeds I m → Succeeds I f → Succeeds I (m >> f)
  unfolding ◌>>◌
  Succeeds->> h k = Succeeds-bind h λ a. k

  pub Succeeds-branch :
      {A : Type 0} (test : S → Bool) {m n : Op S A}
      → Succeeds I m
      → Succeeds I n
      → Succeeds I (branch test m n)
  unfolding branch
  Succeeds-branch test {m} {n} h k = record { goes = λ s i. go s (test s) i }
    where
      go :
          (s : S) (b : Bool)
          → I s
          → Holds ⊥ (λ rc s'. ⊥) (λ a. I) (elim b [ true ↦ m s | false ↦ n s ])
      go s true i = h.goes s i
      go s false i = k.goes s i

  pub Succeeds-pure : {A : Type 0} (a : A) → Succeeds I (pure a)
  unfolding pure
  Succeeds-pure a = record { goes = λ s i. i }

  pub Succeeds-gets : {A : Type 0} (f : S → A) → Succeeds I (gets f)
  unfolding gets
  Succeeds-gets f = record { goes = λ s i. i }

  pub Succeeds-modify : (f : S → S) → ((s : S) → I s → I (f s)) → Succeeds I (modify f)
  unfolding modify
  Succeeds-modify f h = record { goes = h }

pub ruleset succeeds = (Succeeds-bind, Succeeds->>, Succeeds-branch, Succeeds-pure, Succeeds-gets)

-- The step after one that succeeds, and the branch that a test takes.
pub Succeeds-then :
    {S A C : Type 0} {I : S → Type 0} (P : C → S → Type 0) {m : Op S A} (n : Op S C) (s : S)
    → Succeeds I m
    → I s
    → ((s' : S) → I s' → Holds ⊥ (λ rc s''. ⊥) P (n s'))
    → Holds ⊥ (λ rc s'. ⊥) P ((m >> n) s)
unfolding ◌>>◌
Succeeds-then {I = I} P {m} n s h i next =
    Holds-bind ⊥ (λ rc s'. ⊥) (λ a. I) P m (λ a. n) s (h.goes s i) λ a. next
