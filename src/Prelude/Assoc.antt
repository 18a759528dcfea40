-- ===== src/Prelude/Assoc.antt =====
-- A JavaScript `Map` with number keys: its entries in the order of insertion.
use Prim.Native.Nat.{ℕ}
use mathlib.Core.Bool.{Bool, true, false}
use mathlib.Core.Option.{Option, none, some}
use mathlib.Core.List.{List, [], ◌∷◌}
use effect_tls_client.Prelude.Tests.{◌==◌, if◌then◌else◌}

module _ {ℓ} {V : Type ℓ} where
  -- `map.has(key)`.
  unfoldable pub has : ℕ → List (ℕ × V) → Bool
  has key [] = false
  has key ((id, value) ∷ entries) = if id == key then true else has key entries

  -- `map.get(key)`.
  unfoldable pub lookup : ℕ → List (ℕ × V) → Option V
  lookup key [] = none
  lookup key ((id, value) ∷ entries) = if id == key then some value else lookup key entries

  -- `map.delete(key)`.
  unfoldable pub remove : ℕ → List (ℕ × V) → List (ℕ × V)
  remove key [] = []
  remove key ((id, value) ∷ entries) =
      let rest = remove key entries in if id == key then rest else (id, value) ∷ rest

  -- `map.set(key, value)`: an old entry keeps its place.
  unfoldable pub insert : ℕ → V → List (ℕ × V) → List (ℕ × V)
  insert key value [] = (key, value) ∷ []
  insert key value ((id, old) ∷ entries) =
      let rest = insert key value entries in
      if id == key then (key, value) ∷ entries else (id, old) ∷ rest
