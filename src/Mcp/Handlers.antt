-- ===== src/Mcp/Handlers.antt =====
-- internal/mcp/handlers.go: the handlers of the tools. A request is its decoded body,
-- or none where encoding/json refuses it; an answer is what `writeJSON` or `writeError` is given.
-- Parameters are: package sort, the label library, the detail level of the request, and the clock in RFC 3339.
use nightjar.Prelude.{
  String, Bool, true, ◌&&◌, ◌||◌, Option, none, some, List, [], ◌∷◌, ◌++◌, if◌then◌else◌, ◌==◌,
  string_eq, map, keep, length,
}
use nightjar.Prelude.Sorting.{Sorting}
use nightjar.Types.{Constraint, DetailLevel, LabelSelector}
use nightjar.Indexer.{Indexer, by_namespace, by_labels, all}
use nightjar.Notifier.Steps.{RemediationBuilder}
use nightjar.Notifier.Remediation.{build}
use nightjar.Reports.Entries.{severity_order}
use nightjar.Mcp.Results.{
  McpRemediationStep, RemediationResult, ConstraintResult, to_constraint_result, remediation_result,
  to_constraint_result_with_remediation,
}
use nightjar.Mcp.Messages.{
  Reply, refused, answered, QueryParams, McpQueryResult, ExplainParams, ExplainResult,
  RemediationParams,
}
use nightjar.Mcp.Explain.{match_error_to_constraints}
use nightjar.Mcp.Namespaces.{NamespaceSummary, group_constraints, summaries_of}

-- A filter that is empty lets everything through.
abbrev pub passes : String → String → Bool
passes wanted value = (wanted == "") || (value == wanted)

unfoldable pub filter_constraints : List Constraint → QueryParams → List Constraint
filter_constraints cs params =
    keep (λ c. passes params.constraint_type c.constraint_type && passes params.severity c.severity)
      cs

-- With labels only the constraints that select them.
unfoldable pub constraints_for :
    (Option LabelSelector → List (String × String) → Bool)
    → Indexer
    → String
    → List (String × String)
    → List Constraint
constraints_for matches_labels idx namespace [] = by_namespace idx namespace
constraints_for matches_labels idx namespace (l ∷ ls) =
    by_labels matches_labels idx namespace (l ∷ ls)

-- The first constraint with the name, in the loop of two handlers.
unfoldable pub find_by_name : String → List Constraint → Option Constraint
find_by_name name [] = none
find_by_name name (c ∷ cs) =
    let later = find_by_name name cs in if c.name == name then some c else later

module _ (rb : RemediationBuilder) (now : String) (idx : Indexer) where
  unfoldable pub handle_list_namespaces : Sorting → List NamespaceSummary
  handle_list_namespaces sorting =
      sorting.slice_text NamespaceSummary (λ s. s.namespace)
        (summaries_of (group_constraints (all idx) []))

  unfoldable pub handle_remediation : Option RemediationParams → Reply RemediationResult
  handle_remediation none = refused "Invalid request body" 400
  handle_remediation (some params) =
      if (params.constraint_name == "") || (params.namespace == "")
      then refused "constraint_name and namespace are required" 400
      else elim (find_by_name params.constraint_name (by_namespace idx params.namespace)) [
        | none ↦ refused "Constraint not found" 404
        | some c ↦ answered (remediation_result (build rb c))
      ]

  module _ (level : DetailLevel) where
    abbrev pub result_of : Bool → String → Constraint → ConstraintResult
    result_of with_remediation namespace c =
        if with_remediation
        then to_constraint_result_with_remediation rb now c level namespace
        else to_constraint_result now c level namespace

    unfoldable pub handle_query :
        Sorting
        → (Option LabelSelector → List (String × String) → Bool)
        → Option QueryParams
        → Reply McpQueryResult
    handle_query sorting matches_labels none = refused "Invalid request body" 400
    handle_query sorting matches_labels (some params) =
        let found = constraints_for matches_labels idx params.namespace params.workload_labels in
        let wanted = filter_constraints found params in
        let results =
          sorting.slice ConstraintResult (λ r. severity_order r.severity)
            (map (result_of params.include_remediation params.namespace) wanted) in
        if params.namespace == ""
        then refused "namespace is required" 400
        else answered
            (record { namespace = params.namespace; constraints = results; total = length results })

    -- The remediation steps of the results, in order; a nil remediation has none.
    unfoldable pub collected_steps : List ConstraintResult → List McpRemediationStep
    collected_steps [] = []
    collected_steps (r ∷ rs) =
        elim r.remediation [ none ↦ [] | some found ↦ found.steps ] ++ collected_steps rs

    unfoldable pub handle_explain : Option ExplainParams → Reply ExplainResult
    handle_explain none = refused "Invalid request body" 400
    handle_explain (some params) =
        let found =
          match_error_to_constraints params.error_message (by_namespace idx params.namespace) in
        if (params.error_message == "") || (params.namespace == "")
        then refused "error_message and namespace are required" 400
        else answered (record {
          explanation = found.explanation;
          matching_constraints = map (result_of true params.namespace) found.matches;
          confidence = found.confidence;
          remediation_steps = collected_steps (map (result_of true params.namespace) found.matches);
        })
