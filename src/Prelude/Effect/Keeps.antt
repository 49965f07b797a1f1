-- ===== src/Prelude/Effect/Keeps.antt =====
-- Operations that keep an invariant.
use mathlib.Core.Bool.{Bool, true, false}
use mathlib.Core.Option.{Option, none, some}
use exfat.Prelude.Effect.{
  Rc, Outcome, bug, failed, done, Op, ◌>>=◌, ◌>>◌, pure, raise, gets, or_stop, modify, raise_if,
  stop_if, branch, attempt,
}
use exfat.Prelude.Effect.Holds.{Holds, Holds-bind}

-- An operation keeps an invariant of the state, however it ends.
pub record Keeps {S A : Type 0} (I : S → Type 0) (m : Op S A) : Type 0 where
  pub kept : (s : S) → I s → Holds (Unit {0}) (λ rc. I) (λ a. I) (m s)

module _ {S : Type 0} {I : S → Type 0} where
  pub Keeps-bind :
      {A C : Type 0} {m : Op S A} {f : A → Op S C}
      → Keeps I m
      → ((a : A) → Keeps I (f a))
      → Keeps I (m >>= f)
  Keeps-bind {m = m} {f = f} h k = record {
    kept = λ s i.
        Holds-bind (Unit {0}) (λ rc. I) (λ a. I) (λ a. I) m f s (h.kept s i)
          λ a s' j. (k a).kept s' j;
  }

  pub Keeps->> : {A C : Type 0} {m : Op S A} {f : Op S C} → Keeps I m → Keeps I f → Keeps I (m >> f)
  unfolding ◌>>◌
  Keeps->> h k = Keeps-bind h λ a. k

  pub Keeps-branch :
      {A : Type 0} (test : S → Bool) {m n : Op S A}
      → Keeps I m
      → Keeps I n
      → Keeps I (branch test m n)
  unfolding branch
  Keeps-branch test {m} {n} h k = record { kept = λ s i. go s (test s) i }
    where
      go :
          (s : S) (b : Bool)
          → I s
          → Holds (Unit {0}) (λ rc. I) (λ a. I) (elim b [ true ↦ m s | false ↦ n s ])
      go s true i = h.kept s i
      go s false i = k.kept s i

  pub Keeps-attempt : {A : Type 0} {m : Op S A} → Keeps I m → Keeps I (attempt m)
  unfolding attempt
  Keeps-attempt {A} {m} h = record { kept = λ s i. go (m s) (h.kept s i) }
    where
      go :
          (o : Outcome S A)
          → Holds (Unit {0}) (λ rc. I) (λ a. I) o
          → Holds
              (Unit {0})
              (λ rc. I)
              (λ a. I)
              (elim o [ bug ↦ bug | failed rc s' ↦ done tt s' | done a s' ↦ done tt s' ])
      go bug i = tt
      go (failed rc s) i = i
      go (done a s) i = i

  pub Keeps-pure : {A : Type 0} (a : A) → Keeps I (pure a)
  unfolding pure
  Keeps-pure a = record { kept = λ s i. i }

  pub Keeps-raise : {A : Type 0} (rc : Rc) → Keeps I (raise {S = S} {A = A} rc)
  unfolding raise
  Keeps-raise rc = record { kept = λ s i. i }

  pub Keeps-gets : {A : Type 0} (f : S → A) → Keeps I (gets f)
  unfolding gets
  Keeps-gets f = record { kept = λ s i. i }

  pub Keeps-modify : (f : S → S) → ((s : S) → I s → I (f s)) → Keeps I (modify f)
  unfolding modify
  Keeps-modify f h = record { kept = h }

  pub Keeps-or_stop : {A : Type 0} (f : S → Option A) → Keeps I (or_stop f)
  unfolding or_stop
  Keeps-or_stop {A} f = record { kept = λ s i. go s (f s) i }
    where
      go :
          (s : S) (o : Option A)
          → I s
          → Holds (Unit {0}) (λ rc. I) (λ a. I) (elim o [ none ↦ bug | some a ↦ done a s ])
      go s none i = tt
      go s (some a) i = i

  pub Keeps-raise_if : (rc : Rc) (test : S → Bool) → Keeps I (raise_if rc test)
  unfolding raise_if
  Keeps-raise_if rc test = record { kept = λ s i. go s (test s) i }
    where
      go :
          (s : S) (b : Bool)
          → I s
          → Holds (Unit {0}) (λ rc. I) (λ a. I) (elim b [ true ↦ failed rc s | false ↦ done tt s ])
      go s true i = i
      go s false i = i

  pub Keeps-stop_if : (test : S → Bool) → Keeps I (stop_if test)
  unfolding stop_if
  Keeps-stop_if test = record { kept = λ s i. go s (test s) i }
    where
      go :
          (s : S) (b : Bool)
          → I s
          → Holds (Unit {0}) (λ rc. I) (λ a. I) (elim b [ true ↦ bug | false ↦ done tt s ])
      go s true i = tt
      go s false i = i

pub ruleset keeps = (
  Keeps-bind, Keeps->>, Keeps-branch, Keeps-attempt, Keeps-pure, Keeps-raise, Keeps-gets,
  Keeps-or_stop, Keeps-raise_if, Keeps-stop_if,
)
