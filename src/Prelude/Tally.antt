-- ===== src/Prelude/Tally.antt =====
-- Sums over a log.
use Prim.Native.Nat.{ℕ, ◌+◌}
use mathlib.Core.Path.{◌≡◌}
use mathlib.Core.List.{List, [], ◌∷◌, ◌++◌}
use native.Mathlib.Omega.{arith}

module _ {A : Type 0} where
  unfoldable pub tally : (A → ℕ) → List A → ℕ
  tally f [] = 0
  tally f (a ∷ actions) = f a + tally f actions

  pub tally-append : (f : A → ℕ) (as' bs : List A) → tally f (as' ++ bs) ≡ tally f as' + tally f bs
  unfolding tally
  tally-append f [] bs = omega arith
  tally-append f (a ∷ as') bs = omega (arith, tally-append f as' bs)

  pub tally-note :
      (f : A → ℕ) (action : A) (log : List A) (n : ℕ)
      → f action ≡ n
      → tally f (log ++ (action ∷ [])) ≡ tally f log + n
  unfolding tally
  tally-note f action log n e = omega (arith, tally-append f log (action ∷ []), e)

  pub tally-other :
      (f : A → ℕ) (action : A) (log : List A)
      → f action ≡ 0
      → tally f (log ++ (action ∷ [])) ≡ tally f log
  unfolding tally
  tally-other f action log e = omega (arith, tally-append f log (action ∷ []), e)
