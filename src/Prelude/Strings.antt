-- ===== src/Prelude/Strings.antt =====
-- Go's strings package on texts as lists of characters: the functions that the program calls. The
-- letters whose case changes are A to Z and a to z; the others stay as they are.
use Prim.Native.Nat.{ℕ, zero, suc, ◌-◌}
use Prim.Native.Char.{Char, code}
use Prim.Native.String.{String, [], ◌∷◌, ◌++◌}
use mathlib.Core.Path.{◌≡◌, refl}
use mathlib.Core.Bool.{Bool, true, false, ◌&&◌, ◌||◌}
use mathlib.Core.Option.{Option, none, some}
use text.Mathlib.TextLemmas.{nil-append, cons-append}
use native.Mathlib.Omega.{arith}
use nightjar.Prelude.Tests.{if◌then◌else◌, leb, nat_eqb}
use nightjar.Prelude.Equality.{◌==◌, string_eq}

nth_char : ℕ → String → Char → Char
nth_char n [] default = default
nth_char zero (c ∷ s) default = c
nth_char (suc n) (c ∷ s) default = nth_char n s default

abbrev char_in : ℕ → ℕ → Char → Bool
char_in low high c = leb low (code c) && leb (code c) high

unfoldable pub is_upper : Char → Bool
is_upper c = char_in 65 90 c

lower_char : Char → Char
unfolding nth_char is_upper
lower_char c = if is_upper c then nth_char (code c - 65) "abcdefghijklmnopqrstuvwxyz" c else c

upper_char : Char → Char
unfolding nth_char
upper_char c = if char_in 97 122 c then nth_char (code c - 97) "ABCDEFGHIJKLMNOPQRSTUVWXYZ" c else c

-- strings.ToLower
unfoldable pub to_lower : String → String
unfolding lower_char
to_lower [] = []
to_lower (c ∷ s) = lower_char c ∷ to_lower s

-- The first character in upper case, as `strings.ToUpper(parts[0])` of the split text makes it.
unfoldable pub capitalize : String → String
unfolding upper_char
capitalize [] = []
capitalize (c ∷ s) = upper_char c ∷ s

-- strings.Contains with a text of one ASCII character, by its number
unfoldable pub contains_char : ℕ → String → Bool
contains_char n [] = false
contains_char n (c ∷ s) = nat_eqb (code c) n || contains_char n s

-- `s[:i]` at `i = strings.LastIndex(s, c)`, where there is one.
unfoldable pub before_last : ℕ → String → Option String
before_last n [] = none
before_last n (c ∷ s) = elim (before_last n s) [
  | some front ↦ some (c ∷ front)
  | none ↦ if nat_eqb (code c) n then some [] else none
]

-- `strings.TrimSuffix(s, suffix)`, where `strings.HasSuffix(s, suffix)`.
unfoldable pub cut_suffix : String → String → Option String
cut_suffix suffix [] = if suffix == [] then some [] else none
cut_suffix suffix (c ∷ s) =
    let rest = cut_suffix suffix s in
    if suffix == (c ∷ s) then some [] else elim rest [ none ↦ none | some front ↦ some (c ∷ front) ]

unfoldable pub has_suffix : String → String → Bool
unfolding cut_suffix
has_suffix suffix s = elim (cut_suffix suffix s) [ none ↦ false | some front ↦ true ]

-- strings.TrimSuffix
unfoldable pub trim_suffix : String → String → String
unfolding cut_suffix
trim_suffix suffix s = elim (cut_suffix suffix s) [ none ↦ s | some front ↦ front ]

-- strings.HasPrefix
unfoldable pub has_prefix : String → String → Bool
has_prefix [] s = true
has_prefix (c ∷ prefix) [] = false
has_prefix (c ∷ prefix) (d ∷ s) = nat_eqb (code c) (code d) && has_prefix prefix s

dropped : String → String → String
dropped [] s = s
dropped (c ∷ prefix) [] = []
dropped (c ∷ prefix) (d ∷ s) = dropped prefix s

dropped-append : (prefix s : String) → dropped prefix (prefix ++ s) ≡ s
unfolding dropped
dropped-append [] s = rw (nil-append s) refl
dropped-append (c ∷ prefix) s = rw (cons-append c prefix s) (dropped-append prefix s)

has_prefix-append : (prefix s : String) → has_prefix prefix (prefix ++ s) ≡ true
unfolding has_prefix
has_prefix-append [] s = refl
has_prefix-append (c ∷ prefix) s =
    rw (cons-append c prefix s) (ground (arith, has_prefix-append prefix s))

-- strings.TrimPrefix
unfoldable pub trim_prefix : String → String → String
unfolding has_prefix dropped
trim_prefix prefix s = if has_prefix prefix s then dropped prefix s else s

pub trim_prefix-append : (prefix s : String) → trim_prefix prefix (prefix ++ s) ≡ s
unfolding trim_prefix
trim_prefix-append prefix s = rw (has_prefix-append prefix s) (dropped-append prefix s)

-- strings.Contains
unfoldable pub contains : String → String → Bool
unfolding has_prefix
contains part [] = has_prefix part []
contains part (c ∷ s) = has_prefix part (c ∷ s) || contains part s

-- A dash before each capital but the first character, and all in lower case: `toKebabCase` of
-- internal/notifier/event_builder.go.
dashed : String → String
unfolding is_upper
dashed [] = []
dashed (c ∷ s) = let rest = dashed s in if is_upper c then "-" ∷ c ∷ rest else c ∷ rest

unfoldable pub to_kebab_case : String → String
unfolding dashed to_lower
to_kebab_case [] = []
to_kebab_case (c ∷ s) = to_lower (c ∷ dashed s)

escaped : String → String
escaped [] = "\""
escaped (c ∷ s) =
    let rest = escaped s in
    if nat_eqb (code c) 34 || nat_eqb (code c) 92 then "\\" ∷ c ∷ rest else c ∷ rest

-- The `%q` of fmt, for printable text.
unfoldable pub quote : String → String
unfolding escaped
quote s = "\"" ∷ escaped s

-- `s[i+1:]` at `i = strings.Index(s, c)`, where there is one.
unfoldable pub after_char : ℕ → String → Option String
after_char n [] = none
after_char n (c ∷ s) = let rest = after_char n s in if nat_eqb (code c) n then some s else rest

-- `s[:i]` at `i = strings.Index(s, c)`, or all of `s` where there is none.
unfoldable pub before_char : ℕ → String → String
before_char n [] = []
before_char n (c ∷ s) = let front = before_char n s in if nat_eqb (code c) n then [] else c ∷ front

-- The first part ends at the first such character.
module _ (n : ℕ) (d : Char) (is : code d ≡ n) where
  pub after_char-append :
      (s t : String) → contains_char n s ≡ false → after_char n (s ++ (d ∷ t)) ≡ some t
  unfolding after_char contains_char
  after_char-append [] t h = rw (nil-append (d ∷ t)) (ground arith)
  after_char-append (c ∷ s) t h =
      rw (cons-append c s (d ∷ t)) (ground (arith, after_char-append s t))

  pub before_char-append :
      (s t : String) → contains_char n s ≡ false → before_char n (s ++ (d ∷ t)) ≡ s
  unfolding before_char contains_char
  before_char-append [] t h = rw (nil-append (d ∷ t)) (ground arith)
  before_char-append (c ∷ s) t h =
      rw (cons-append c s (d ∷ t)) (ground (arith, before_char-append s t))

-- unicode.IsSpace
is_space : Char → Bool
is_space c =
    char_in 9 13 c
    || (char_in 32 32 c
        || (char_in 133 133 c
            || (char_in 160 160 c
                || (char_in 5760 5760 c
                    || (char_in 8192 8202 c
                        || (char_in 8232 8233 c
                            || (char_in 8239 8239 c
                                || (char_in 8287 8287 c || char_in 12288 12288 c))))))))

trim_left : String → String
trim_left [] = []
trim_left (c ∷ s) = let rest = trim_left s in if is_space c then rest else c ∷ s

trim_right : String → String
trim_right [] = []
trim_right (c ∷ s) = let rest = trim_right s in if (rest == "") && is_space c then [] else c ∷ rest

-- strings.TrimSpace
unfoldable pub trim_space : String → String
unfolding trim_left trim_right is_space
trim_space s = trim_right (trim_left s)
