-- ===== src/Api/Constraints.antt =====
-- internal/api/constraints.go: the endpoint that the admission webhook asks. A request is its method
-- and the value of `namespace` in its query; the indexer may be nil. An answer is an error with its
-- status, or the constraints that encoding/json is given.
use nightjar.Prelude.{
  ℕ, String, not, Option, none, some, List, [], if◌then◌else◌, ◌==◌, string_eq, map,
}
use nightjar.Types.{Constraint}
use nightjar.Indexer.{Indexer, by_namespace, all}

pub data Served : Type 0 where
  http_error : String → ℕ → Served
  encoded : List Constraint → Served

unfoldable pub strip : Constraint → Constraint
strip c = record c { raw_object = none }

-- The constraints of the namespace, or all without one.
unfoldable pub served_constraints : Indexer → String → List Constraint
served_constraints idx namespace = if namespace == "" then all idx else by_namespace idx namespace

unfoldable pub serve_http : Option Indexer → String → String → Served
serve_http indexer method namespace =
    if not (method == "GET") then http_error "Method not allowed" 405 else elim indexer [
      | none ↦ encoded []
      | some idx ↦ encoded (map strip (served_constraints idx namespace))
    ]
