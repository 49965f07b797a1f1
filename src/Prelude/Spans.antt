-- ===== src/Prelude/Spans.antt =====
-- The bytes that a function of places has from a place on.
use Prim.Native.Nat.{ℕ, zero, suc, ◌+◌}
use mathlib.Core.Path.{◌≡◌, ap, sym, ◌∙◌}
use mathlib.Core.List.{List, [], ◌∷◌, ◌++◌}
use native.Mathlib.Omega.{arith}

unfoldable pub span : (ℕ → ℕ) → ℕ → ℕ → List ℕ
span content at zero = []
span content at (suc n) = content at ∷ span content (at + 1) n

pub span_split :
    (content : ℕ → ℕ) (at a b : ℕ)
    → span content at (a + b) ≡ span content at a ++ span content (at + a) b
unfolding span
span_split content at zero b =
    let none : 0 + b ≡ b = omega arith in
    let still : at + 0 ≡ at = omega arith in
    ap (span content at) none ∙ ap (λ o. span content o b) (sym still)
span_split content at (suc a) b =
    let more : suc a + b ≡ suc (a + b) = omega arith in
    let on : at + 1 + a ≡ at + suc a = omega arith in
    ap (span content at) more
    ∙ ap (λ xs. content at ∷ xs)
        (span_split content (at + 1) a b ∙ ap (λ o. span content (at + 1) a ++ span content o b) on)
