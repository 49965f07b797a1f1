-- ===== src/Prelude/Effect.antt =====
-- Operations on a state that end in a result, in an error code, or in `exfat_bug`, which stops the
-- program. An error keeps the state that it found.
pub mod Holds
pub mod Keeps
pub mod Succeeds
pub mod Steps
use mathlib.Core.Bool.{Bool, true, false}
use mathlib.Core.Option.{Option, none, some}
use mathlib.Core.Path.{◌≡◌, refl}

-- The error codes that the library returns, as `-EIO` and so on.
pub data Rc : Type 0 where
  eio enospc einval enoent enametoolong eexist enotempty ebusy enotdir eisdir enomem eilseq : Rc

pub data Outcome (S A : Type 0) : Type 0 where
  bug : Outcome S A
  failed : Rc → S → Outcome S A
  done : A → S → Outcome S A

abbrev pub Op : Type 0 → Type 0 → Type 0
Op S A = S → Outcome S A

infixl 5 ◌>>=◌ ◌>>◌
unfoldable pub ◌>>=◌ : {S A B : Type 0} → Op S A → (A → Op S B) → Op S B
◌>>=◌ m f s = elim (m s) [ bug ↦ bug | failed rc s' ↦ failed rc s' | done a s' ↦ f a s' ]

unfoldable pub ◌>>◌ : {S A B : Type 0} → Op S A → Op S B → Op S B
unfolding ◌>>=◌
m >> k = m >>= λ _. k

module _ {S A : Type 0} where
  unfoldable pub pure : A → Op S A
  pure a s = done a s

  unfoldable pub raise : Rc → Op S A
  raise rc s = failed rc s

  unfoldable pub stop : Op S A
  stop s = bug

  unfoldable pub gets : (S → A) → Op S A
  gets f s = done (f s) s

  -- A value that the program stops without.
  unfoldable pub or_stop : (S → Option A) → Op S A
  or_stop f s = elim (f s) [ none ↦ bug | some a ↦ done a s ]

module _ {S : Type 0} where
  unfoldable pub modify : (S → S) → Op S (Unit {0})
  modify f s = done tt (f s)

  unfoldable pub raise_if : Rc → (S → Bool) → Op S (Unit {0})
  raise_if rc test s = elim (test s) [ true ↦ failed rc s | false ↦ done tt s ]

  unfoldable pub stop_if : (S → Bool) → Op S (Unit {0})
  stop_if test s = elim (test s) [ true ↦ bug | false ↦ done tt s ]

  unfoldable pub branch : {A : Type 0} → (S → Bool) → Op S A → Op S A → Op S A
  branch test if_true if_false s = elim (test s) [ true ↦ if_true s | false ↦ if_false s ]

-- The call of an operation whose result code is dropped.
unfoldable pub attempt : {S A : Type 0} → Op S A → Op S (Unit {0})
attempt m s = elim (m s) [ bug ↦ bug | failed rc s' ↦ done tt s' | done a s' ↦ done tt s' ]

-- The call of an operation whose error code is looked at.
unfoldable pub recover : {S A : Type 0} → Op S A → (Rc → Op S A) → Op S A
recover m handler s = elim (m s) [
  | bug ↦ bug
  | failed rc s' ↦ handler rc s'
  | done a s' ↦ done a s'
]
