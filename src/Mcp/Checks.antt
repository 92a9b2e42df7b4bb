-- ===== src/Mcp/Checks.antt =====
-- internal/mcp/handlers.go: the check of a manifest. Parameters are the label library, the YAML decoder,
-- the accessors of an unstructured object, the detail level of the request, and the clock.
use nightjar.Prelude.{
  ℕ, String, Bool, true, false, not, ◌&&◌, Option, none, some, List, [], ◌∷◌, if◌then◌else◌, ◌==◌,
  string_eq, map, keep, concat,
}
use nightjar.Types.{
  Constraint, DetailLevel, LabelSelector, constraint_type_admission, severity_critical,
  severity_warning,
}
use nightjar.Types.Value.{Object, end, lookup_field, as_object}
use nightjar.Util.{Unstructured, string_entries, safe_string_from_map}
use nightjar.Indexer.{Indexer, by_labels}
use nightjar.Notifier.Steps.{RemediationBuilder}
use nightjar.Requirements.Evaluator.{Evaluator, evaluate}
use nightjar.Mcp.Results.{
  ConstraintResult, MissingResource, to_constraint_result, constraint_to_missing_resource,
  mcp_generic_summary,
}
use nightjar.Mcp.Messages.{Reply, refused, answered, CheckResult}

abbrev pub is_blocking : Constraint → Bool
is_blocking c =
    (c.constraint_type == constraint_type_admission) && (c.severity == severity_critical)

abbrev pub is_warning : Constraint → Bool
is_warning c = not (is_blocking c) && (c.severity == severity_warning)

abbrev pub or_empty_object : Option Object → Object
or_empty_object none = end
or_empty_object (some o) = o

abbrev pub object_at : String → Object → Object
object_at key o = elim (lookup_field key o) [ none ↦ end | some v ↦ or_empty_object (as_object v) ]

abbrev pub manifest_namespace : Object → String
manifest_namespace manifest =
    let namespace = safe_string_from_map (some (object_at "metadata" manifest)) "namespace" in
    if namespace == "" then "default" else namespace

abbrev pub manifest_labels : Object → List (String × String)
manifest_labels manifest = string_entries (object_at "labels" (object_at "metadata" manifest))

-- `len(l) > 0`
abbrev pub is_nonempty : {A : Type 0} → List A → Bool
is_nonempty [] = false
is_nonempty (a ∷ rest) = true

module _ (rb : RemediationBuilder) (now : String) (idx : Indexer) (level : DetailLevel) where
  abbrev pub check_warning : String → Constraint → String
  check_warning namespace c = concat (
      (to_constraint_result now c level namespace).name
      ∷ ": "
      ∷ mcp_generic_summary c.constraint_type
      ∷ [])

  -- The loop appends to one of two lists, or to none.
  unfoldable pub check_constraints : String → List Constraint → List ConstraintResult × List String
  check_constraints namespace cs = (
    map (λ c. to_constraint_result now c level namespace) (keep is_blocking cs),
    map (check_warning namespace) (keep is_warning cs),
  )

  unfoldable pub missing_prerequisites :
      ℕ → Unstructured → Option Evaluator → Option Evaluator × List MissingResource
  missing_prerequisites time w none = (none, [])
  missing_prerequisites time w (some e) =
      let (e', found) = evaluate time (some w) e in
      (some e', map (λ c. constraint_to_missing_resource rb c w) found)

  -- The manifest is the argument after the evaluator, or none where the body is refused.
  unfoldable pub handle_check :
      (Option LabelSelector → List (String × String) → Bool)
      → (String → Option Object)
      → (Object → Unstructured)
      → ℕ
      → Option Evaluator
      → Option String
      → Option Evaluator × Reply CheckResult
  handle_check matches_labels unmarshal accessors time evaluator none =
      (evaluator, refused "Invalid request body" 400)
  handle_check matches_labels unmarshal accessors time evaluator (some text) =
      if text == ""
      then (evaluator, refused "manifest is required" 400)
      else elim (unmarshal text) [
        | none ↦ (evaluator, refused "Invalid YAML manifest" 400)
        | some manifest ↦
            let namespace = manifest_namespace manifest in
            let cs = by_labels matches_labels idx namespace (manifest_labels manifest) in
            let (blocking, warnings) = check_constraints namespace cs in
            let (evaluator', missing) = missing_prerequisites time (accessors manifest) evaluator in
            (
              evaluator',
              answered (record {
                would_block = is_nonempty blocking;
                blocking_constraints = blocking;
                missing_prerequisites = missing;
                warnings = warnings;
              }),
            )
      ]
