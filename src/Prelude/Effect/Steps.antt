-- ===== src/Prelude/Effect/Steps.antt =====
-- What a step computes to, as equations that a chain of them is made of.
use mathlib.Core.Bool.{Bool, true, false}
use mathlib.Core.Option.{Option, some}
use mathlib.Core.Path.{◌≡◌, refl}
use exfat.Prelude.Effect.{
  Rc, failed, done, Op, ◌>>=◌, ◌>>◌, gets, or_stop, raise_if, stop_if, branch, recover,
}

module _ {S A C : Type 0} where
  pub bind_done :
      (m : Op S A) (f : A → Op S C) (s s' : S) (a : A) → m s ≡ done a s' → (m >>= f) s ≡ f a s'
  unfolding ◌>>=◌
  bind_done m f s s' a h = rw (◌>>=◌, h) refl

  pub then_done : (m : Op S A) (n : Op S C) (s s' : S) (a : A) → m s ≡ done a s' → (m >> n) s ≡ n s'
  unfolding ◌>>=◌ ◌>>◌
  then_done m n s s' a h = rw (◌>>◌, ◌>>=◌, h) refl

  pub gets_done : (f : S → A) (k : A → Op S C) (s : S) → (gets f >>= k) s ≡ k (f s) s
  unfolding ◌>>=◌ gets
  gets_done f k s = refl

  pub or_stop-some :
      (f : S → Option A) (k : A → Op S C) (s : S) (a : A)
      → f s ≡ some a
      → (or_stop f >>= k) s ≡ k a s
  unfolding ◌>>=◌ or_stop
  or_stop-some f k s a h = rw (◌>>=◌, or_stop, h) refl

module _ {S A : Type 0} where
  pub branch-true :
      (test : S → Bool) (m n : Op S A) (s : S) → test s ≡ true → branch test m n s ≡ m s
  unfolding branch
  branch-true test m n s h = rw (branch, h) refl

  pub branch-false :
      (test : S → Bool) (m n : Op S A) (s : S) → test s ≡ false → branch test m n s ≡ n s
  unfolding branch
  branch-false test m n s h = rw (branch, h) refl

  pub raise_if-true :
      (rc : Rc) (test : S → Bool) (n : Op S A) (s : S)
      → test s ≡ true
      → (raise_if rc test >> n) s ≡ failed rc s
  unfolding raise_if ◌>>◌ ◌>>=◌
  raise_if-true rc test n s h = rw (◌>>◌, ◌>>=◌, raise_if, h) refl

  pub raise_if-false :
      (rc : Rc) (test : S → Bool) (n : Op S A) (s : S)
      → test s ≡ false
      → (raise_if rc test >> n) s ≡ n s
  unfolding raise_if ◌>>◌ ◌>>=◌
  raise_if-false rc test n s h = rw (◌>>◌, ◌>>=◌, raise_if, h) refl

  pub stop_if-false :
      (test : S → Bool) (n : Op S A) (s : S) → test s ≡ false → (stop_if test >> n) s ≡ n s
  unfolding stop_if ◌>>◌ ◌>>=◌
  stop_if-false test n s h = rw (◌>>◌, ◌>>=◌, stop_if, h) refl

  pub recover_done :
      (m : Op S A) (handler : Rc → Op S A) (s s' : S) (a : A)
      → m s ≡ done a s'
      → recover m handler s ≡ done a s'
  unfolding recover
  recover_done m handler s s' a h = rw (recover, h) refl

  pub recover_failed :
      (m : Op S A) (handler : Rc → Op S A) (s s' : S) (rc : Rc)
      → m s ≡ failed rc s'
      → recover m handler s ≡ handler rc s'
  unfolding recover
  recover_failed m handler s s' rc h = rw (recover, h) refl

module _ {S A C : Type 0} where
  pub bind_failed :
      (m : Op S A) (f : A → Op S C) (s s' : S) (rc : Rc)
      → m s ≡ failed rc s'
      → (m >>= f) s ≡ failed rc s'
  unfolding ◌>>=◌
  bind_failed m f s s' rc h = rw (◌>>=◌, h) refl
