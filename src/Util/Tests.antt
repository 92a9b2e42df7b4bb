-- ===== src/Util/Tests.antt =====
-- Witnesses and runs of the utilities.
use nightjar.Prelude.{String, ◌≡◌, refl, List, [], ◌∷◌, any}
use nightjar.Util.{unique_strings}

abbrev ports : List String
ports = "80/TCP" ∷ "53/UDP" ∷ "80/TCP" ∷ []

in_order : unique_strings ports ≡ "80/TCP" ∷ "53/UDP" ∷ []
unfolding unique_strings any
in_order = refl
