-- ===== src/Mcp/Tests.antt =====
-- Witnesses and runs of the tools for agents.
use nightjar.Prelude.{
  ◌≡◌, ◌≢◌, ◌↔◌, ◌⊎◌, refl, true, false, inl, some, [], ◌∷◌, string_eq, eq_iff, map, ◌∈◌, length,
  keep, any, Bool,
}
use mathlib.Core.List.{Perm}
use nightjar.Prelude.Dict.{lookup}
use nightjar.Prelude.Sorting.{insertion, insertion-IsSorting}
use nightjar.Types.{
  Constraint, zero_constraint, severity_critical, severity_warning, constraint_type_admission,
  detail_level_summary,
}
use nightjar.Indexer.{Indexer, by_namespace, all}
use nightjar.Notifier.Steps.{RemediationBuilder}
use nightjar.Reports.Triggers.{listed_in}
use nightjar.Mcp.Results.{
  to_constraint_result, to_constraint_result_with_remediation, remediation_result,
}
use nightjar.Notifier.Remediation.{build}
use nightjar.Prelude.Strings.{contains, to_lower}
use nightjar.Mcp.Messages.{QueryParams}
use nightjar.Mcp.Namespaces.{namespace_summary, or_empty, group_constraints}
use nightjar.Mcp.Handlers.{result_of, handle_query}
use nightjar.Mcp.Summaries.{namespace_summary-top}
use nightjar.Mcp.Answers.{Answered, to_constraint_result-private, group_constraints-by_namespace}
use nightjar.Mcp.Explain.{match_error_to_constraints}
use nightjar.Mcp.Queries.{Asked, IsBySeverity, handle_query_lem}
use nightjar.Mcp.Matching.{answer_of, match_error_to_constraints_lem}

abbrev platform : RemediationBuilder
platform = record { default_contact = "your platform team" }

abbrev quota : Constraint
quota = record zero_constraint {
  uid = "q";
  name = "compute";
  namespace = "team-a";
  constraint_type = "ResourceLimit";
  severity = severity_warning;
}

abbrev policy : Constraint
policy = record zero_constraint {
  uid = "p";
  name = "deny-all";
  namespace = "infra";
  affected_namespaces = "team-a" ∷ [];
  constraint_type = constraint_type_admission;
  severity = severity_critical;
  remediation_hint = "Ask #payments";
}

-- The same but for the name and the hint.
abbrev twin : Constraint
twin = record policy { name = "isolate"; remediation_hint = "Ask #ledger" }

abbrev store : Indexer
store = record { by_uid = ("q", quota) ∷ ("p", policy) ∷ []; on_change = true }

abbrev whole_namespace : QueryParams
whole_namespace = record {
  namespace = "team-a";
  workload_name = "";
  workload_labels = [];
  constraint_type = "";
  severity = "";
  include_remediation = false;
}

-- Two filters, and labels.
abbrev critical_query : QueryParams
critical_query = record whole_namespace {
  workload_labels = ("app", "web") ∷ [];
  constraint_type = constraint_type_admission;
  severity = severity_critical;
}

handle_query_lem_example :
    Answered
      (λ r.
        IsBySeverity r.constraints
        × (r.total ≡ length r.constraints)
        × ((wanted : Constraint → Bool) × ((c : Constraint)
              → (wanted c ≡ true) ↔ Asked (λ s l. true) critical_query c)
            × Perm r.constraints (
                map
                  (result_of platform "now" store "summary" false "team-a")
                  (keep wanted (all store)))))
      (handle_query platform "now" store "summary" insertion (λ s l. true) (some critical_query))
handle_query_lem_example =
    handle_query_lem (λ s l. true) insertion platform "now" store "summary" critical_query
      insertion-IsSorting (λ e. let named = (eq_iff "team-a" "").1 e in cc)

to_constraint_result-private_example :
    (to_constraint_result "now" policy detail_level_summary "team-a"
      ≡ to_constraint_result "now" twin detail_level_summary "team-a")
    × (to_constraint_result_with_remediation platform "now" policy detail_level_summary "team-a"
        ≡ record (to_constraint_result "now" twin detail_level_summary "team-a") {
          remediation = some (remediation_result (build platform policy));
        })
to_constraint_result-private_example =
    to_constraint_result-private platform "now" "team-a" policy twin
      (λ e. let apart = (eq_iff "infra" "team-a").1 e in cc)
      (λ e. let apart = (eq_iff "infra" "team-a").1 e in cc) refl refl refl refl refl

group_constraints-by_namespace_example :
    (policy ∈ or_empty (lookup "team-a" (group_constraints (all store) []))) ↔ (
      (policy ∈ by_namespace store "team-a")
      × ((policy.namespace ≢ "") ⊎ (listed_in "team-a" policy.affected_namespaces ≡ true)))
group_constraints-by_namespace_example = group_constraints-by_namespace store "team-a" policy

-- The critical policy comes after the warning.
namespace_summary-top_example :
    (namespace_summary "team-a" (quota ∷ policy ∷ [])).top_constraint ≡ "compute"
namespace_summary-top_example = namespace_summary-top "team-a" quota (policy ∷ []) (inl refl)

match_error_to_constraints_lem_example :
    let found =
      match_error_to_constraints "admission webhook denied the request" (quota ∷ policy ∷ []) in
    (found.matches, found.confidence)
    ≡ answer_of "admission webhook denied the request" (quota ∷ policy ∷ [])
match_error_to_constraints_lem_example =
    match_error_to_constraints_lem "admission webhook denied the request" (quota ∷ policy ∷ [])

explained :
    answer_of "admission webhook denied the request" (quota ∷ policy ∷ []) ≡ (policy ∷ [], "high")
unfolding any keep contains to_lower
explained = refl
