-- ===== src/Prelude/Dict/Laws.antt =====
-- The laws of the map operations.
use mathlib.Core.Path.{◌≡◌, refl}
use mathlib.Core.Logic.{◌↔◌, inl, inr}
use mathlib.Core.Bool.{Bool}
use mathlib.Core.List.{[], ◌∷◌}
use mathlib.Core.Option.{Option, none, some}
use native.Mathlib.Omega.{arith}
use nightjar.Prelude.Tests.{if◌then◌else◌}
use nightjar.Prelude.Lists.{◌∈◌}
use nightjar.Prelude.Equality.{Comparable, ◌==◌}
use nightjar.Prelude.Dict.Defs.{Dict, HasDistinctKeys, lookup, erase, insert, retain, values}

-- The entry survives if it passes the test.
abbrev pub kept : {V : Type 0} → (V → Bool) → Option V → Option V
kept p none = none
kept p (some v) = if p v then some v else none

module _ {K V : Type 0} ⦃e : Comparable K⦄ where
  pub lookup-erase :
      (k j : K) (m : Dict K V) → lookup j (erase k m) ≡ (if k == j then none else lookup j m)
  unfolding lookup erase
  lookup-erase k j [] = ground arith
  lookup-erase k j ((i, v) ∷ m) =
      ground (arith, e.same_iff k j, e.same_iff i k, e.same_iff i j, lookup-erase k j m)

  pub lookup-insert :
      (k j : K) (v : V) (m : Dict K V)
      → lookup j (insert k v m) ≡ (if k == j then some v else lookup j m)
  unfolding lookup insert
  lookup-insert k j v m = ground (arith, lookup-erase k j m)

  pub erase-HasDistinctKeys :
      (k : K) (m : Dict K V) → HasDistinctKeys m → HasDistinctKeys (erase k m)
  unfolding erase
  erase-HasDistinctKeys k [] h = tt
  erase-HasDistinctKeys k ((j, v) ∷ m) h =
      ground (arith, lookup-erase k j m, erase-HasDistinctKeys k m h.1)

  pub insert-HasDistinctKeys :
      (k : K) (v : V) (m : Dict K V) → HasDistinctKeys m → HasDistinctKeys (insert k v m)
  unfolding insert
  insert-HasDistinctKeys k v m h =
      ground (arith, lookup-erase k k m, e.same_iff k k, erase-HasDistinctKeys k m h)

  -- What fails the test, or was absent, is absent; the rest stays.
  pub lookup-retain :
      (p : K → V → Bool) (k : K) (m : Dict K V)
      → HasDistinctKeys m
      → lookup k (retain p m) ≡ kept (p k) (lookup k m)
  unfolding lookup retain
  lookup-retain p k [] h = refl
  lookup-retain p k ((j, v) ∷ m) h = ground (arith, e.same_iff j k, lookup-retain p k m h.1)

  pub retain-HasDistinctKeys :
      (p : K → V → Bool) (m : Dict K V) → HasDistinctKeys m → HasDistinctKeys (retain p m)
  unfolding retain
  retain-HasDistinctKeys p [] h = tt
  retain-HasDistinctKeys p ((j, v) ∷ m) h =
      ground (arith, lookup-retain p j m h.1, retain-HasDistinctKeys p m h.1)

  -- A list of the entries and the lookup say the same.
  pub lookup-eq-some_iff :
      (k : K) (v : V) (m : Dict K V) → HasDistinctKeys m → (lookup k m ≡ some v) ↔ ((k, v) ∈ m)
  unfolding lookup
  lookup-eq-some_iff k v [] h = ground arith
  lookup-eq-some_iff k v ((j, w) ∷ m) h =
      ground (arith, e.same_iff j k, lookup-eq-some_iff k v m h.1)

  pub mem-values : (v : V) (m : Dict K V) → v ∈ values m → (k : K) × ((k, v) ∈ m)
  unfolding values
  mem-values v [] h = absurd h
  mem-values v ((j, w) ∷ m) h = elim h [
    | inl q ↦ (j, inl (ground arith))
    | inr r ↦ let (k, s) = mem-values v m r in (k, inr s)
  ]

  pub values-mem : (k : K) (v : V) (m : Dict K V) → (k, v) ∈ m → v ∈ values m
  unfolding values
  values-mem k v [] h = h
  values-mem k v ((j, w) ∷ m) h = ground (arith, values-mem k v m)
