-- ===== src/Prelude/Members.antt =====
-- Sets of numbers as lists, in the order of insertion.
use Prim.Native.Nat.{ℕ}
use mathlib.Core.Path.{◌≡◌, refl}
use mathlib.Core.Logic.{inl, inr}
use mathlib.Core.Bool.{Bool, true, false, not, ◌&&◌, ◌||◌}
use mathlib.Core.List.{List, [], ◌∷◌, ◌++◌}
use native.Mathlib.Omega.{arith}
use effect_tls_client.Prelude.Tests.{◌==◌, if◌then◌else◌, Bool-cases, ==_iff, ==_refl}
use effect_tls_client.Prelude.Lists.{contains}

-- `add` and `delete` of a Set, `set` and `delete` of a Map of which only the keys are told apart.
unfoldable pub add_id : ℕ → List ℕ → List ℕ
add_id id ids = if contains id ids then ids else ids ++ (id ∷ [])

unfoldable pub delete_id : ℕ → List ℕ → List ℕ
delete_id id [] = []
delete_id id (known ∷ ids) =
    let rest = delete_id id ids in if id == known then rest else known ∷ rest

pub contains-append :
    (r : ℕ) (xs ys : List ℕ) → contains r (xs ++ ys) ≡ (contains r xs || contains r ys)
contains-append r [] ys = refl
contains-append r (x ∷ xs) ys = ground (arith, contains-append r xs ys)

pub contains-delete_id :
    (r s : ℕ) (ids : List ℕ) → contains r (delete_id s ids) ≡ (contains r ids && not (r == s))
unfolding delete_id
contains-delete_id r s [] = refl
contains-delete_id r s (id ∷ ids) = ground (arith, contains-delete_id r s ids)

or_false_right : (b : Bool) → b ≡ (b || false)
or_false_right true = refl
or_false_right false = refl

pub contains-add_id :
    (r s : ℕ) (ids : List ℕ) → contains r (add_id s ids) ≡ (contains r ids || r == s)
unfolding add_id
contains-add_id r s ids = elim (Bool-cases (contains s ids)) [
  | inl e ↦ rw e (elim (Bool-cases (r == s)) [
    | inl same ↦ rw ((==_iff r s).0 same, e) refl
    | inr other ↦ rw other (or_false_right (contains r ids))
  ])
  | inr e ↦ rw e (ground (arith, contains-append r ids (s ∷ [])))
]

pub gone : (s : ℕ) (ids : List ℕ) → contains s (delete_id s ids) ≡ false
gone s ids = ground (arith, contains-delete_id s s ids, ==_refl s)

pub kept :
    (r s : ℕ) (ids : List ℕ) → (r == s) ≡ false → contains r (delete_id s ids) ≡ contains r ids
kept r s ids e = ground (arith, contains-delete_id r s ids, e)

pub there : (s : ℕ) (ids : List ℕ) → contains s (add_id s ids) ≡ true
there s ids = ground (arith, contains-add_id s s ids, ==_refl s)

pub joined :
    (r s : ℕ) (ids : List ℕ) → (r == s) ≡ false → contains r (add_id s ids) ≡ contains r ids
joined r s ids e = ground (arith, contains-add_id r s ids, e)
