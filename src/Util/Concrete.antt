-- ===== src/Util/Concrete.antt =====
-- Accessors of unstructured objects that can be run, and selectors that compare labels: a value of
-- the parameter `Library`, which the witnesses take.
use nightjar.Prelude.{
  String, Bool, true, false, ◌&&◌, Option, none, some, List, [], ◌∷◌, ◌==◌, string_eq,
}
use nightjar.Prelude.Dict.{lookup}
use nightjar.Types.{LabelSelector}
use nightjar.Types.Value.{
  Value, Items, object, lookup_field, as_object, as_string, as_bool, as_items, to_list,
}
use nightjar.Util.{Nested, found, missing, failed, Library, strings_of}

-- The value at a path of keys.
unfoldable pub walk : Value → List String → Nested Value
unfolding as_object lookup_field
walk v [] = found v
walk v (k ∷ ks) = elim (as_object v) [
  | none ↦ failed
  | some o ↦ elim (lookup_field k o) [ none ↦ missing | some w ↦ walk w ks ]
]

abbrev typed : {A : Type 0} → (Value → Option A) → Nested Value → Nested A
typed convert (found v) = elim (convert v) [ none ↦ failed | some a ↦ found a ]
typed convert missing = missing
typed convert failed = failed

abbrev listed : Nested Items → Nested (List String)
listed (found l) = found (strings_of (to_list l))
listed missing = missing
listed failed = failed

unfoldable pub has_labels : List (String × String) → List (String × String) → Bool
unfolding lookup
has_labels [] labels = true
has_labels ((k, v) ∷ wanted) labels =
    elim (lookup k labels) [ none ↦ false | some w ↦ w == v ] && has_labels wanted labels

abbrev pub concrete : Library
concrete = record {
  nested_string = λ o path. typed as_string (walk (object o) path);
  nested_bool = λ o path. typed as_bool (walk (object o) path);
  nested_string_slice = λ o path. listed (typed as_items (walk (object o) path));
  nested_map = λ o path. typed as_object (walk (object o) path);
  nested_slice = λ o path. typed as_items (walk (object o) path);
  Selector = LabelSelector;
  as_selector = λ s. some s;
  matches = λ s labels. has_labels s.match_labels labels;
  int_text = λ x. x;
}
