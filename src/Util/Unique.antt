-- ===== src/Util/Unique.antt =====
-- internal/util/strings.go: the deduplicated copy has the members of the slice, each once.
use nightjar.Prelude.{
  String, ◌≡◌, ◌↔◌, true, List, [], ◌∷◌, arith, eq_iff, ◌==◌, string_eq, any, ◌∈◌,
}
use nightjar.Util.{unique_strings, unique_from}

any_iff : (v : String) (seen : List String) → (any (λ s. s == v) seen ≡ true) ↔ (v ∈ seen)
unfolding any
any_iff v [] = ground arith
any_iff v (s ∷ seen) = ground (arith, eq_iff s v, any_iff v seen)

unique_from_iff :
    (x : String) (seen l : List String) → (x ∈ unique_from seen l) ↔ ((x ∈ l) × ¬ (x ∈ seen))
unfolding unique_from
unique_from_iff x seen [] = (λ h. absurd h, λ h. absurd h.0)
unique_from_iff x seen (v ∷ l) = ground (
  arith,
  eq_iff x v,
  any_iff v seen,
  any_iff x seen,
  unique_from_iff x seen l,
  unique_from_iff x (v ∷ seen) l,
)

-- No element occurs twice.
abbrev pub IsUnique : List String → Type 0
IsUnique [] = Unit {0}
IsUnique (x ∷ l) = ¬ (x ∈ l) × IsUnique l

unique_from-IsUnique : (seen l : List String) → IsUnique (unique_from seen l)
unfolding unique_from
unique_from-IsUnique seen [] = tt
unique_from-IsUnique seen (v ∷ l) = ground (
  arith,
  unique_from_iff v (v ∷ seen) l,
  unique_from-IsUnique seen l,
  unique_from-IsUnique (v ∷ seen) l,
)

-- UniqueStrings has exactly the members of the list, and none of them twice.
pub unique_strings_lem :
    (l : List String)
    → ((x : String) → (x ∈ unique_strings l) ↔ (x ∈ l)) × IsUnique (unique_strings l)
unfolding unique_strings
unique_strings_lem l = (λ x. ground (arith, unique_from_iff x [] l), unique_from-IsUnique [] l)
