-- ===== src/Requirements/Context.antt =====
-- internal/requirements/eval_context.go: what a rule reads of the cluster. The dynamic client is the
-- parameter `Client`: a Get and a List by resource and namespace, which is empty for the whole
-- cluster. An error is a text.
use nightjar.Prelude.{String, none, some, List, [], ◌∷◌, if◌then◌else◌, string_eq, concat}
use nightjar.Prelude.Strings.{quote}
use nightjar.Types.{GroupVersionResource}
use nightjar.Util.{Library, Unstructured, safe_nested_label_selector, matches_label_selector}

pub data Listing : Type 0 where
  list_error : String → Listing
  listed : List Unstructured → Listing

pub data Fetched : Type 0 where
  get_error : String → Fetched
  fetched : Unstructured → Fetched

pub record Client : Type 0 where
  pub get : GroupVersionResource → String → Fetched
  pub list : GroupVersionResource → String → Listing

unfoldable pub get_namespace : Client → String → Fetched
get_namespace client name =
    elim (client.get (record { group = ""; version = "v1"; resource = "namespaces" }) name) [
      | get_error err ↦ get_error (concat ("get namespace " ∷ quote name ∷ ": " ∷ err ∷ []))
      | fetched obj ↦ fetched obj
    ]

unfoldable pub list_by_gvr : Client → GroupVersionResource → String → Listing
list_by_gvr client gvr namespace = elim (client.list gvr namespace) [
  | list_error err ↦
      list_error (concat ("list " ∷ gvr.resource ∷ " in " ∷ quote namespace ∷ ": " ∷ err ∷ []))
  | listed objs ↦ listed objs
]

module _ (lib : Library) where
  -- The loop over the listed objects; one without a selector is skipped.
  unfoldable pub matching : List (String × String) → List Unstructured → List Unstructured
  matching labels [] = []
  matching labels (obj ∷ objs) =
      let others = matching labels objs in
      elim (safe_nested_label_selector lib (some obj.content) ("spec" ∷ "selector" ∷ [])) [
        | none ↦ others
        | some selector ↦
            if matches_label_selector lib (some selector) labels then obj ∷ others else others
      ]

  unfoldable pub find_matching_resources :
      Client → GroupVersionResource → String → List (String × String) → Listing
  find_matching_resources client gvr namespace labels = elim (list_by_gvr client gvr namespace) [
    | list_error err ↦ list_error err
    | listed objs ↦ listed (matching labels objs)
  ]
