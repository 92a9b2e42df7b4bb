-- ===== src/Prelude/Dict/Defs.antt =====
-- The operations on a Go map: `m[k]`, `delete(m, k)`, `m[k] = v`, the deletion of the entries that
-- fail a test during a `range`, and `len(m)`.
use Prim.Native.Nat.{ℕ}
use mathlib.Core.Path.{◌≡◌}
use mathlib.Core.Bool.{Bool}
use mathlib.Core.List.{List, [], ◌∷◌}
use mathlib.Core.Option.{Option, none, some}
use nightjar.Prelude.Tests.{if◌then◌else◌}
use nightjar.Prelude.Lists.{length}
use nightjar.Prelude.Equality.{Comparable, ◌==◌}

abbrev pub Dict : Type 0 → Type 0 → Type 0
Dict K V = List (K × V)

module _ {K V : Type 0} where
  -- Visits the entries in the order of the list, and drops those that fail the test.
  unfoldable pub retain : (K → V → Bool) → Dict K V → Dict K V
  retain p [] = []
  retain p ((k, v) ∷ m) = let rest = retain p m in if p k v then (k, v) ∷ rest else rest

  unfoldable pub values : Dict K V → List V
  values [] = []
  values ((k, v) ∷ m) = v ∷ values m

  unfoldable pub keys : Dict K V → List K
  keys [] = []
  keys ((k, v) ∷ m) = k ∷ keys m

  unfoldable pub size : Dict K V → ℕ
  size m = length m

module _ {K V : Type 0} ⦃e : Comparable K⦄ where
  unfoldable pub lookup : K → Dict K V → Option V
  lookup k [] = none
  lookup k ((j, v) ∷ m) = if j == k then some v else lookup k m

  unfoldable pub erase : K → Dict K V → Dict K V
  erase k [] = []
  erase k ((j, v) ∷ m) = let rest = erase k m in if j == k then rest else (j, v) ∷ rest

  unfoldable pub insert : K → V → Dict K V → Dict K V
  unfolding erase
  insert k v m = (k, v) ∷ erase k m

  abbrev pub HasDistinctKeys : Dict K V → Type 0
  HasDistinctKeys [] = Unit {0}
  HasDistinctKeys ((k, v) ∷ m) = (lookup k m ≡ none) × HasDistinctKeys m

  -- Two maps with the same entries, whatever the order.
  abbrev pub Agree : Dict K V → Dict K V → Type 0
  Agree m n = (k : K) → lookup k m ≡ lookup k n
