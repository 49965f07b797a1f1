-- ===== src/Prelude/Effect/Holds.antt =====
-- What holds of the outcome of an operation, step by step.
use mathlib.Core.Bool.{Bool, true, false}
use mathlib.Core.Option.{Option, some}
use mathlib.Core.Path.{◌≡◌, refl}
use exfat.Prelude.Effect.{
  Rc, Outcome, bug, failed, done, Op, ◌>>=◌, ◌>>◌, or_stop, raise_if, stop_if, branch,
}

-- What holds of an outcome: `B` of a stop, `Q` of an error and `P` of a result.
abbrev pub Holds :
    {S A : Type 0} → Type 0 → (Rc → S → Type 0) → (A → S → Type 0) → Outcome S A → Type 0
Holds B Q P bug = B
Holds B Q P (failed rc s) = Q rc s
Holds B Q P (done a s) = P a s

module _ {S : Type 0} (B : Type 0) (Q : Rc → S → Type 0) where
  pub Holds-bind :
      {A C : Type 0} (P : A → S → Type 0) (P' : C → S → Type 0) (m : Op S A) (f : A → Op S C)
      (s : S)
      → Holds B Q P (m s)
      → ((a : A) (s' : S) → P a s' → Holds B Q P' (f a s'))
      → Holds B Q P' ((m >>= f) s)
  unfolding ◌>>=◌
  Holds-bind {A = A} P P' m f s h next = go (m s) h
    where
      go :
          (o : Outcome S A)
          → Holds B Q P o
          → Holds B Q P' (elim o [ bug ↦ bug | failed rc s' ↦ failed rc s' | done a s' ↦ f a s' ])
      go bug h = h
      go (failed rc s') h = h
      go (done a s') h = next a s' h

pub Holds_map :
    {S A : Type 0} (B : Type 0) (Q Q' : Rc → S → Type 0) (P P' : A → S → Type 0) (o : Outcome S A)
    → Holds B Q P o
    → ((rc : Rc) (s : S) → Q rc s → Q' rc s)
    → ((a : A) (s : S) → P a s → P' a s)
    → Holds B Q' P' o
Holds_map B Q Q' P P' bug h q p = h
Holds_map B Q Q' P P' (failed rc s) h q p = q rc s h
Holds_map B Q Q' P P' (done a s) h q p = p a s h

pub Holds-branch_false :
    {S A : Type 0} (B : Type 0) (Q : Rc → S → Type 0) (P : A → S → Type 0) (test : S → Bool)
    (m n : Op S A) (s : S)
    → test s ≡ false
    → Holds B Q P (n s)
    → Holds B Q P (branch test m n s)
unfolding branch
Holds-branch_false B Q P test m n s h holds = rw (Holds, h) holds

pub Holds-branch_true :
    {S A : Type 0} (B : Type 0) (Q : Rc → S → Type 0) (P : A → S → Type 0) (test : S → Bool)
    (m n : Op S A) (s : S)
    → test s ≡ true
    → Holds B Q P (m s)
    → Holds B Q P (branch test m n s)
unfolding branch
Holds-branch_true B Q P test m n s h holds = rw (Holds, h) holds

pub Holds-raise_if_false :
    {S A : Type 0} (B : Type 0) (Q : Rc → S → Type 0) (P : A → S → Type 0) (rc : Rc)
    (test : S → Bool) (n : Op S A) (s : S)
    → test s ≡ false
    → Holds B Q P (n s)
    → Holds B Q P ((raise_if rc test >> n) s)
unfolding raise_if ◌>>◌ ◌>>=◌
Holds-raise_if_false B Q P rc test n s h holds = rw (Holds, h) holds

pub Holds-stop_if_false :
    {S A : Type 0} (B : Type 0) (Q : Rc → S → Type 0) (P : A → S → Type 0) (test : S → Bool)
    (n : Op S A) (s : S)
    → test s ≡ false
    → Holds B Q P (n s)
    → Holds B Q P ((stop_if test >> n) s)
unfolding stop_if ◌>>◌ ◌>>=◌
Holds-stop_if_false B Q P test n s h holds = rw (Holds, h) holds

-- An operation is verified step by step, for any outcome of its tests and reads.
pub Holds-raise_if :
    {S A : Type 0} (B : Type 0) (Q : Rc → S → Type 0) (P : A → S → Type 0) (rc : Rc)
    (test : S → Bool) (n : Op S A) (s : S)
    → Q rc s
    → (test s ≡ false → Holds B Q P (n s))
    → Holds B Q P ((raise_if rc test >> n) s)
unfolding raise_if ◌>>◌ ◌>>=◌
Holds-raise_if {S} {A} B Q P rc test n s q holds = go (test s) refl
  where
    go :
        (b : Bool)
        → test s ≡ b
        → Holds B Q P
            (elim (elim b as (λ c. Outcome S (Unit {0})) [
              | true ↦ failed rc s
              | false ↦ done tt s
            ]) [ bug ↦ bug | failed rc' s' ↦ failed rc' s' | done u s' ↦ n s' ])
    go true h = q
    go false h = holds h

pub Holds-or_stop :
    {S A C : Type 0} (B : Type 0) (Q : Rc → S → Type 0) (P : C → S → Type 0) (f : S → Option A)
    (k : A → Op S C) (s : S) (a : A)
    → f s ≡ some a
    → Holds B Q P (k a s)
    → Holds B Q P ((or_stop f >>= k) s)
unfolding or_stop ◌>>=◌
Holds-or_stop B Q P f k s a h holds = rw (Holds, h) holds

pub Holds-branch :
    {S A : Type 0} (B : Type 0) (Q : Rc → S → Type 0) (P : A → S → Type 0) (test : S → Bool)
    (m n : Op S A) (s : S)
    → (test s ≡ true → Holds B Q P (m s))
    → (test s ≡ false → Holds B Q P (n s))
    → Holds B Q P (branch test m n s)
unfolding branch
Holds-branch {S} {A} B Q P test m n s h k = go (test s) refl
  where
    go : (b : Bool) → test s ≡ b → Holds B Q P (elim b [ true ↦ m s | false ↦ n s ])
    go true e = h e
    go false e = k e

pub Holds->> :
    {S A C : Type 0} (B : Type 0) (Q : Rc → S → Type 0) (P : A → S → Type 0) (P' : C → S → Type 0)
    (m : Op S A) (n : Op S C) (s : S)
    → Holds B Q P (m s)
    → ((a : A) (s' : S) → P a s' → Holds B Q P' (n s'))
    → Holds B Q P' ((m >> n) s)
unfolding ◌>>◌
Holds->> B Q P P' m n s h next = Holds-bind B Q P P' m (λ a. n) s h next
