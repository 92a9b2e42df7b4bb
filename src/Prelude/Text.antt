-- ===== src/Prelude/Text.antt =====
-- Texts put together: the `%d` of fmt, and the joining of parts.
use Prim.Native.Nat.{ℕ, zero, suc, ◌/◌, ◌%◌}
use Prim.Native.String.{String, ◌++◌}
use mathlib.Core.List.{List, [], ◌∷◌}
use nightjar.Prelude.Tests.{if◌then◌else◌, nat_eqb, ltb}

abbrev digit : ℕ → String
digit d =
    if nat_eqb d 0
    then "0"
    else if nat_eqb d 1
    then "1"
    else if nat_eqb d 2
    then "2"
    else if nat_eqb d 3
    then "3"
    else if nat_eqb d 4
    then "4"
    else if nat_eqb d 5
    then "5"
    else if nat_eqb d 6
    then "6"
    else if nat_eqb d 7
    then "7"
    else if nat_eqb d 8
    then "8"
    else "9"

-- A number has at most as many digits as its value and one.
digits_from : ℕ → ℕ → String
digits_from zero n = ""
digits_from (suc fuel) n =
    let front = digits_from fuel (n / 10) in if ltb n 10 then digit n else front ++ digit (n % 10)

unfoldable pub decimal : ℕ → String
unfolding digits_from
decimal n = digits_from (suc n) n

-- The texts joined, as fmt.Sprintf joins the parts of its format and the values between them.
abbrev pub concat : List String → String
concat [] = ""
concat (x ∷ xs) = x ++ concat xs
