-- ===== src/Util.antt =====
-- internal/util: labels, lists of strings, and fields of unstructured objects. What the Kubernetes
-- libraries do is the parameter `Library`: the typed accessors of the package unstructured, the
-- parsing of a label selector, and whether a parsed selector matches. A nil map is `none`.
pub mod Unique
pub mod Concrete
mod Tests
use nightjar.Prelude.{
  ℕ, String, Bool, true, false, ◌&&◌, Option, none, some, List, [], ◌∷◌, ◌++◌, if◌then◌else◌, ◌==◌,
  string_eq, any, length, nat_eqb, keep,
}
use nightjar.Types.{LabelSelector, LabelSelectorRequirement}
use nightjar.Types.Value.{
  Value, Items, Object, end, field, nil, cons, lookup_field, to_list, as_string, as_object,
}

-- unstructured.Unstructured: the results of its getters, and its content. `GetLabels` and
-- `GetAnnotations` return the empty map for nil here.
pub record Unstructured : Type 0 where
  pub uid : String
  pub name : String
  pub namespace : String
  pub labels : List (String × String)
  pub annotations : List (String × String)
  pub content : Object

-- `(value, found, err)`: a value, not found, or an error.
pub data Nested (A : Type 0) : Type 0 where
  found : A → Nested A
  missing : Nested A
  failed : Nested A

pub record Library : Type 1 where
  pub nested_string : Object → List String → Nested String
  pub nested_bool : Object → List String → Nested Bool
  pub nested_string_slice : Object → List String → Nested (List String)
  pub nested_map : Object → List String → Nested Object
  pub nested_slice : Object → List String → Nested Items
  pub Selector : Type 0
  pub as_selector : LabelSelector → Option Selector
  pub matches : Selector → List (String × String) → Bool
  -- the `%d` of fmt on `int64(v)`, for the float64 that this text stands for
  pub int_text : String → String

-- `if err != nil || !found { return zero }`
abbrev pub or_else : {A : Type 0} → A → Nested A → A
or_else zero_value (found a) = a
or_else zero_value missing = zero_value
or_else zero_value failed = zero_value

abbrev pub as_option : {A : Type 0} → Nested A → Option A
as_option (found a) = some a
as_option missing = none
as_option failed = none

-- `v.(string)` over a slice, skipping what is no string
unfoldable pub strings_of : List Value → List String
unfolding as_string
strings_of [] = []
strings_of (v ∷ vs) = elim (as_string v) [ none ↦ strings_of vs | some s ↦ s ∷ strings_of vs ]

-- The entries of a map that are strings.
unfoldable pub string_entries : Object → List (String × String)
unfolding as_string
string_entries end = []
string_entries (field k v rest) =
    let others = string_entries rest in
    elim (as_string v) [ none ↦ others | some s ↦ (k, s) ∷ others ]

unfoldable pub safe_string_from_map : Option Object → String → String
unfolding lookup_field as_string
safe_string_from_map none key = ""
safe_string_from_map (some m) key = elim (lookup_field key m) [
  | none ↦ ""
  | some v ↦ elim (as_string v) [ none ↦ "" | some s ↦ s ]
]

unique_from : List String → List String → List String
unique_from seen [] = []
unique_from seen (v ∷ vs) =
    let first = v ∷ unique_from (v ∷ seen) vs in
    let again = unique_from seen vs in if any (λ s. s == v) seen then again else first

-- `UniqueStrings`; `seen` holds the keys of its map.
unfoldable pub unique_strings : List String → List String
unfolding unique_from
unique_strings l = unique_from [] l

module _ (lib : Library) where
  open lib use {
    nested_string, nested_bool, nested_string_slice, nested_map, nested_slice, as_selector, matches,
  }

  unfoldable pub safe_nested_string : Option Object → List String → String
  safe_nested_string none fields = ""
  safe_nested_string (some obj) fields = or_else "" (nested_string obj fields)

  unfoldable pub safe_nested_bool : Option Object → List String → Bool
  safe_nested_bool none fields = false
  safe_nested_bool (some obj) fields = or_else false (nested_bool obj fields)

  unfoldable pub safe_nested_string_slice : Option Object → List String → List String
  safe_nested_string_slice none fields = []
  safe_nested_string_slice (some obj) fields = or_else [] (nested_string_slice obj fields)

  unfoldable pub safe_nested_map : Option Object → List String → Option Object
  safe_nested_map none fields = none
  safe_nested_map (some obj) fields = as_option (nested_map obj fields)

  -- A nil slice is `none`.
  unfoldable pub safe_nested_slice : Option Object → List String → Option Items
  safe_nested_slice none fields = none
  safe_nested_slice (some obj) fields = as_option (nested_slice obj fields)

  unfoldable pub elements : Option Items → List Value
  unfolding to_list
  elements none = []
  elements (some l) = to_list l

  unfoldable pub selector_requirement : Object → LabelSelectorRequirement
  selector_requirement expr = record {
    key = safe_string_from_map (some expr) "key";
    operator = safe_string_from_map (some expr) "operator";
    requirement_values = strings_of (elements (safe_nested_slice (some expr) ("values" ∷ [])));
  }

  -- The loop over the expressions, which skips what is no map.
  unfoldable pub selector_requirements : List Value → List LabelSelectorRequirement
  selector_requirements [] = []
  selector_requirements (v ∷ vs) =
      let others = selector_requirements vs in
      elim (as_object v) [ none ↦ others | some expr ↦ selector_requirement expr ∷ others ]

  unfoldable pub label_entries : Option Object → List (String × String)
  label_entries none = []
  label_entries (some m) = string_entries m

  unfoldable pub safe_nested_label_selector : Option Object → List String → Option LabelSelector
  safe_nested_label_selector none fields = none
  safe_nested_label_selector (some obj) fields = elim (safe_nested_map (some obj) fields) [
    | none ↦ none
    | some selector ↦ some (record {
      match_labels = label_entries (safe_nested_map (some selector) ("matchLabels" ∷ []));
      match_expressions =
          selector_requirements
            (elements (safe_nested_slice (some selector) ("matchExpressions" ∷ [])));
    })
  ]

  unfoldable pub is_empty_selector : LabelSelector → Bool
  is_empty_selector s = nat_eqb (length s.match_labels) 0 && nat_eqb (length s.match_expressions) 0

  unfoldable pub matches_label_selector : Option LabelSelector → List (String × String) → Bool
  matches_label_selector none labels = true
  matches_label_selector (some selector) labels =
      if is_empty_selector selector
      then true
      else elim (as_selector selector) [ none ↦ false | some s ↦ matches s labels ]
