-- ===== src/Prelude/Equality.antt =====
-- Go's `==` on the key types of the program's maps, as a Boolean test that decides equality. Go
-- calls the types with such a test comparable.
use Prim.Native.String.{String}
use mathlib.Core.Path.{◌≡◌}
use mathlib.Core.Logic.{◌↔◌}
use mathlib.Core.Bool.{Bool, true, ◌&&◌}
use native.Mathlib.Omega.{arith}
use text.Mathlib.Text
use text.Mathlib.TextEquality.{eq_iff}

-- A key type: the test that Go's map makes on two keys, and that it holds of equal keys only.
pub record Comparable (K : Type 0) : Type 0 where
  pub same : K → K → Bool
  pub same_iff : (j k : K) → (same j k ≡ true) ↔ (j ≡ k)

infix 50 ◌==◌
abbrev pub ◌==◌ : {K : Type 0} ⦃keys : Comparable K⦄ → K → K → Bool
◌==◌ ⦃keys⦄ j k = keys.same j k

instance abbrev pub string_eq : Comparable String
string_eq = record { same_iff = eq_iff; same = λ s t. Text.◌==◌ s t }

-- A struct of two comparable fields is compared field by field.
module _ {J K : Type 0} ⦃first : Comparable J⦄ ⦃second : Comparable K⦄ where
  abbrev pub pair_eqb : J × K → J × K → Bool
  pair_eqb p q = (p.0 == q.0) && (p.1 == q.1)

  pub pair_eqb_iff : (p q : J × K) → (pair_eqb p q ≡ true) ↔ (p ≡ q)
  pair_eqb_iff p q = ground (arith, first.same_iff p.0 q.0, second.same_iff p.1 q.1)

  instance abbrev pub pair_eq : Comparable (J × K)
  pair_eq = record { same_iff = pair_eqb_iff; same = pair_eqb }
