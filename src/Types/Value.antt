-- ===== src/Types/Value.antt =====
-- Go's `interface{}` values inside `map[string]interface{}`, as JSON decoding and the adapters
-- build them. `negative n` is the number -(n + 1). A float64 stands by its text: the modelled code
-- only tells it from the other kinds.
use nightjar.Prelude.{
  ℕ, String, Bool, Option, none, some, List, [], ◌∷◌, if◌then◌else◌, ◌==◌, string_eq,
}

mutual
  pub data Value : Type 0 where
    null : Value
    boolean : Bool → Value
    integer : ℕ → Value
    negative : ℕ → Value
    float : String → Value
    text : String → Value
    items : Items → Value
    object : Object → Value

  pub data Items : Type 0 where
    nil : Items
    cons : Value → Items → Items

  pub data Object : Type 0 where
    end : Object
    field : String → Value → Object → Object

-- `obj[key]`, with `ok`
unfoldable pub lookup_field : String → Object → Option Value
lookup_field key end = none
lookup_field key (field k v rest) = if k == key then some v else lookup_field key rest

unfoldable pub to_list : Items → List Value
to_list nil = []
to_list (cons v rest) = v ∷ to_list rest

-- The type assertions `v.(string)` and so on, with `ok`.
unfoldable pub as_string : Value → Option String
as_string (text s) = some s
as_string _ = none

unfoldable pub as_bool : Value → Option Bool
as_bool (boolean b) = some b
as_bool _ = none

unfoldable pub as_object : Value → Option Object
as_object (object o) = some o
as_object _ = none

unfoldable pub as_items : Value → Option Items
as_items (items l) = some l
as_items _ = none
